-- ===== src/Archive/Cpio.antt =====
-- libraries/archive/src/cpio.cpp: the entries of a CPIO archive in a memory that maps addresses to
-- characters. Pointers are addresses; the two loops over the entries have `fuel` rounds.
pub mod Laws
pub mod Named
pub mod Opening
use Prim.Native.Nat.{bit_and}
use reaveros.Prelude.{
  ℕ, zero, suc, ◌+◌, ◌-◌, ◌%◌, ◌^◌, Bool, true, false, Option, none, some, List, [], ◌∷◌, leb, ◌==◌,
  ◌&&◌, if◌then◌else◌,
}
use reaveros.Rosestd.CharConv.{FromChars, Errc, no_error, from_chars}
use reaveros.Rosestd.StringView.{StringView, characters, literal, equal_views}

-- sizeof(cpio_header): the magic of 6 characters, and 13 fields of 8.
abbrev pub header_size : ℕ
header_size = 110

-- `header`.
pub record Header : Type 0 where
  pub hdr : ℕ
  pub namesize : ℕ
  pub name_padding : ℕ
  pub filesize : ℕ
  pub file_padding : ℕ
  pub mode : ℕ

-- The error messages of `get_entry`.
pub data EntryError : Type 0 where
  entry_past_limit bad_magic bad_mode bad_namesize bad_filesize file_past_limit : EntryError

-- `get_entry_result`.
pub data EntryResult : Type 0 where
  entry : Header → EntryResult
  failed : EntryError → ℕ → EntryResult

unfoldable pub is_file : Header → Bool
is_file h = bit_and h.mode 32768 == 32768

unfoldable pub filename : Header → StringView
filename h = record { data_pointer = h.hdr + header_size; size = h.namesize }

unfoldable pub contents : Header → StringView
contents h = record {
  data_pointer = h.hdr + header_size + h.namesize + h.name_padding;
  size = h.filesize;
}

-- The end of an entry, with the padding.
abbrev pub end_of : Header → ℕ
end_of h = h.hdr + header_size + h.namesize + h.name_padding + h.filesize + h.file_padding

-- "070701" and "TRAILER!!!".
abbrev pub magic : List ℕ
magic = 48 ∷ 55 ∷ 48 ∷ 55 ∷ 48 ∷ 49 ∷ []

abbrev pub trailer : List ℕ
trailer = 84 ∷ 82 ∷ 65 ∷ 73 ∷ 76 ∷ 69 ∷ 82 ∷ 33 ∷ 33 ∷ 33 ∷ []

-- The tests behind each call of `from_chars`: no error, and the end of the field.
abbrev accept_field : ℕ → FromChars → Option ℕ
accept_field end r = elim r.ec [ no_error ↦ if r.ptr == end then r.value else none | _ ↦ none ]

-- A field of 8 hexadecimal digits.
unfoldable pub parse_field : (ℕ → ℕ) → ℕ → Option ℕ
parse_field mem first = accept_field (first + 8) (from_chars 16 mem first 8)

-- The last check, with the header of the entry.
abbrev pub within : ℕ → Header → EntryResult
within limit h = if leb limit (end_of h) then failed file_past_limit h.hdr else entry h

abbrev make_header : ℕ → ℕ → ℕ → ℕ → Header
make_header base mode namesize filesize = record {
  hdr = base;
  namesize = namesize;
  name_padding = (4 - (header_size + namesize) % 4) % 4;
  filesize = filesize;
  file_padding = (4 - filesize % 4) % 4;
  mode = mode;
}

-- The part of `get_entry` behind the magic.
unfoldable pub read_fields : (ℕ → ℕ) → ℕ → ℕ → EntryResult
read_fields mem base limit = elim (parse_field mem (base + 14)) [
  | none ↦ failed bad_mode base
  | some mode ↦ elim (parse_field mem (base + 94)) [
    | none ↦ failed bad_namesize base
    | some namesize ↦ elim (parse_field mem (base + 54)) [
      | none ↦ failed bad_filesize base
      | some filesize ↦ within limit (make_header base mode namesize filesize)
    ]
  ]
]

-- The magic is the right one.
unfoldable pub has_magic : (ℕ → ℕ) → ℕ → Bool
has_magic mem base =
    equal_views (characters mem (record { data_pointer = base; size = 6 })) 6 (literal magic) 6

unfoldable pub get_entry : (ℕ → ℕ) → ℕ → ℕ → EntryResult
get_entry mem base limit =
    if leb limit (base + header_size)
    then failed entry_past_limit base
    else if has_magic mem base
    then read_fields mem base limit
    else failed bad_magic base

unfoldable pub next : (ℕ → ℕ) → ℕ → Header → EntryResult
next mem limit h = get_entry mem (end_of h) limit

-- `filename() == name`.
unfoldable pub is_named : (ℕ → ℕ) → (ℕ → ℕ) → ℕ → Header → Bool
is_named mem name size h = equal_views (characters mem (filename h)) h.namesize name size

unfoldable pub is_trailer : (ℕ → ℕ) → Header → Bool
is_trailer mem h = is_named mem (literal trailer) 10 h

-- The class `cpio`.
pub record Cpio : Type 0 where
  pub size : ℕ
  pub base : ℕ
  pub limit : ℕ

-- `try_cpio_result`.
pub data TryResult : Type 0 where
  archive : Cpio → TryResult
  rejected : EntryError → ℕ → TryResult

-- The loop of `try_cpio`; `size` is a `std::size_t`.
unfoldable pub try_from : (ℕ → ℕ) → ℕ → ℕ → ℕ → ℕ → EntryResult → Option TryResult
try_from mem base end zero size r = none
try_from mem base end (suc fuel) size (failed e at) = some (rejected e (at - base))
try_from mem base end (suc fuel) size (entry h) = elim (is_trailer mem h) [
  | true ↦ some (
      archive (record {
        size = if is_file h then (size + 1) % 2 ^ 64 else size;
        base = base;
        limit = end;
      }))
  | false ↦
      try_from mem base end fuel (if is_file h then (size + 1) % 2 ^ 64 else size) (next mem end h)
]

unfoldable pub try_cpio : (ℕ → ℕ) → ℕ → ℕ → ℕ → Option TryResult
try_cpio mem fuel base length =
    try_from mem base (base + length) fuel 0 (get_entry mem base (base + length))

-- The loop of `operator[]`: `some none` is `std::nullopt`.
unfoldable pub lookup_from :
    (ℕ → ℕ) → ℕ → (ℕ → ℕ) → ℕ → ℕ → EntryResult → Option (Option StringView)
lookup_from mem limit name size zero r = none
lookup_from mem limit name size (suc fuel) (failed e at) = some none
lookup_from mem limit name size (suc fuel) (entry h) =
    elim (is_file h && is_named mem name size h) [
      | true ↦ some (some (contents h))
      | false ↦ elim (is_trailer mem h) [
        | true ↦ some none
        | false ↦ lookup_from mem limit name size fuel (next mem limit h)
      ]
    ]

unfoldable pub lookup : (ℕ → ℕ) → ℕ → (ℕ → ℕ) → ℕ → Cpio → Option (Option StringView)
lookup mem fuel name size c = lookup_from mem c.limit name size fuel (get_entry mem c.base c.limit)
