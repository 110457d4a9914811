-- ===== src/Archive/Cpio/Laws.antt =====
-- The reader of libraries/archive/src/cpio.cpp against the list of the entries of an archive.
use reaveros.Prelude.{
  ℕ, zero, suc, ◌+◌, ◌-◌, ◌%◌, ◌≤◌, ◌<◌, ◌≡◌, refl, ap, ◌∙◌, Bool, true, false, Option, none, some,
  List, [], ◌∷◌, arith, leb, ◌&&◌, if◌then◌else◌, Bool-cases, Option-cases, inl, inr, length,
  Returns,
}
use mathlib.Core.Path.{fun_ext}
use reaveros.Rosestd.StringView.{StringView}
use reaveros.Archive.Cpio.Named.{starts_alike, is_named_lem}
use reaveros.Archive.Cpio.{
  Header, EntryResult, entry, failed, bad_magic, is_file, contents, end_of, header_size, within,
  parse_field, get_entry, next, is_named, is_trailer, Cpio, lookup_from, lookup, make_header,
  entry_past_limit, has_magic, read_fields,
}

-- An entry that was read at an address: it lies between this address and the limit, and its padding
-- fills the name and the file up to multiples of 4.
abbrev pub IsEntry : ℕ → ℕ → Header → Type 0
IsEntry base limit h =
    (h.hdr ≡ base)
    × (end_of h < limit)
    × ((header_size + h.namesize + h.name_padding) % 4 ≡ 0)
    × ((h.filesize + h.file_padding) % 4 ≡ 0)

-- What comes of a read: an entry, or an error at the address.
abbrev pub IsRead : ℕ → ℕ → EntryResult → Type 0
IsRead base limit (entry h) = IsEntry base limit h
IsRead base limit (failed e at) = at ≡ base

padded : (n : ℕ) → (n + (4 - n % 4) % 4) % 4 ≡ 0
padded n = ground arith

within-IsRead :
    (base limit : ℕ) (h : Header)
    → h.hdr ≡ base
    → (header_size + h.namesize + h.name_padding) % 4 ≡ 0
    → (h.filesize + h.file_padding) % 4 ≡ 0
    → IsRead base limit (within limit h)
within-IsRead base limit h e n f = elim (Bool-cases (leb limit (end_of h))) [
  | inl b ↦ rw b e
  | inr b ↦ rw b (e, ground arith, n, f)
]

if-IsRead :
    (base limit : ℕ) (b : Bool) (r q : EntryResult)
    → IsRead base limit r
    → IsRead base limit q
    → IsRead base limit (if b then r else q)
if-IsRead base limit true r q h k = h
if-IsRead base limit false r q h k = k

read_fields-IsRead : (mem : ℕ → ℕ) (base limit : ℕ) → IsRead base limit (read_fields mem base limit)
unfolding read_fields
read_fields-IsRead mem base limit = elim (Option-cases (parse_field mem (base + 14))) [
  | inl e ↦ rw (e, read_fields) refl
  | inr (mode, e) ↦
      rw (e, read_fields)
        (elim (Option-cases (parse_field mem (base + 94))) [
          | inl f ↦ rw (f, read_fields) refl
          | inr (namesize, f) ↦
              rw (f, read_fields)
                (elim (Option-cases (parse_field mem (base + 54))) [
                  | inl g ↦ rw (g, read_fields) refl
                  | inr (filesize, g) ↦
                      rw (g, read_fields)
                        (within-IsRead base limit (make_header base mode namesize filesize) refl
                          (padded (header_size + namesize)) (padded filesize))
                ])
        ])
]

-- A read never goes past the limit: the entry that it returns, its name, its contents and their
-- padding, ends before the limit, the padding fills the name with the header and the file up to
-- multiples of 4, and an error tells the address of the entry that was read.
pub get_entry-IsRead : (mem : ℕ → ℕ) (base limit : ℕ) → IsRead base limit (get_entry mem base limit)
unfolding get_entry
get_entry-IsRead mem base limit =
    if-IsRead base limit (leb limit (base + header_size)) (failed entry_past_limit base) _ refl (
      if-IsRead base limit (has_magic mem base) (read_fields mem base limit) (failed bad_magic base)
        (read_fields-IsRead mem base limit) refl)

-- The entries from an address on, up to the trailer, which is the last of them.
pub data Listing (mem : ℕ → ℕ) (limit : ℕ) : ℕ → List Header → Type 0 where
  last :
      (a : ℕ) (h : Header)
      → get_entry mem a limit ≡ entry h
      → is_trailer mem h ≡ true
      → Listing mem limit a (h ∷ [])
  more :
      (a : ℕ) (h : Header) (hs : List Header)
      → get_entry mem a limit ≡ entry h
      → is_trailer mem h ≡ false
      → Listing mem limit (end_of h) hs
      → Listing mem limit a (h ∷ hs)

-- The number of the regular files among the entries.
abbrev pub count_files : List Header → ℕ
count_files [] = 0
count_files (h ∷ hs) = if is_file h then suc (count_files hs) else count_files hs

-- The first regular file that passes a test.
abbrev pub first_file : (Header → Bool) → List Header → Option StringView
first_file test [] = none
first_file test (h ∷ hs) = if is_file h && test h then some (contents h) else first_file test hs

lookup_next :
    (mem : ℕ → ℕ) (limit : ℕ) (name : ℕ → ℕ) (size fuel : ℕ) (h : Header) (hs : List Header)
    → lookup_from mem limit name size fuel (get_entry mem (end_of h) limit)
      ≡ some (first_file (is_named mem name size) hs)
    → lookup_from mem limit name size fuel (next mem limit h)
      ≡ some (first_file (is_named mem name size) hs)
unfolding next
lookup_next mem limit name size fuel h hs e = e

next-IsRead : (mem : ℕ → ℕ) (limit : ℕ) (h : Header) → IsRead (end_of h) limit (next mem limit h)
unfolding next
next-IsRead mem limit h = get_entry-IsRead mem (end_of h) limit

lookup_from-Listing :
    (mem : ℕ → ℕ) (limit : ℕ) (name : ℕ → ℕ) (size fuel a : ℕ) (hs : List Header)
    → Listing mem limit a hs
    → length hs ≤ fuel
    → lookup_from mem limit name size fuel (get_entry mem a limit)
      ≡ some (first_file (is_named mem name size) hs)
unfolding lookup_from
lookup_from-Listing mem limit name size zero _ _ (last a h e t) le = absurd (omega arith)
lookup_from-Listing mem limit name size zero _ _ (more a h hs e t l) le = absurd (omega arith)
lookup_from-Listing mem limit name size (suc fuel) _ _ (last a h e t) le =
    rw (e, lookup_from)
      (elim (Bool-cases (is_file h && is_named mem name size h)) [
        | inl f ↦ rw (f, lookup_from, first_file) refl
        | inr f ↦ rw (f, lookup_from, first_file) (rw (t, lookup_from) refl)
      ])
lookup_from-Listing mem limit name size (suc fuel) _ _ (more a h hs e t l) le =
    rw (e, lookup_from)
      (elim (Bool-cases (is_file h && is_named mem name size h)) [
        | inl f ↦ rw (f, lookup_from, first_file) refl
        | inr f ↦
            rw (f, lookup_from, first_file)
              (rw (t, lookup_from)
                (lookup_next mem limit name size fuel h hs
                  (lookup_from-Listing mem limit name size fuel (end_of h) hs l (omega arith))))
      ])

-- `operator[]`, given as many rounds as there are entries, returns the contents of the first regular
-- file whose stored name starts with the name asked for, or starts it, where an empty name is taken for
-- an empty one only; and nothing if there is no such file.
pub lookup-Listing :
    (mem : ℕ → ℕ) (name : ℕ → ℕ) (size fuel : ℕ) (c : Cpio) (hs : List Header)
    → Listing mem c.limit c.base hs
    → length hs ≤ fuel
    → lookup mem fuel name size c ≡ some (first_file (starts_alike mem name size) hs)
unfolding lookup
lookup-Listing mem name size fuel c hs l le =
    lookup_from-Listing mem c.limit name size fuel c.base hs l le
    ∙ ap (λ test. some (first_file test hs)) (fun_ext (is_named_lem mem name size))

-- The range of a view lies in the archive.
abbrev pub IsInside : Cpio → Option StringView → Type 0
IsInside c none = Unit
IsInside c (some v) = (c.base + header_size ≤ v.data_pointer) × (v.data_pointer + v.size < c.limit)

lookup_from-IsInside :
    (mem : ℕ → ℕ) (c : Cpio) (name : ℕ → ℕ) (size fuel a : ℕ) (r : EntryResult)
    → c.base ≤ a
    → 1 ≤ fuel
    → c.limit < a + fuel
    → IsRead a c.limit r
    → Returns (IsInside c) (lookup_from mem c.limit name size fuel r)
unfolding lookup_from
lookup_from-IsInside mem c name size zero a r le pos lt i = absurd (omega arith)
lookup_from-IsInside mem c name size (suc fuel) a (failed e at) le pos lt i = tt
lookup_from-IsInside mem c name size (suc fuel) a (entry h) le pos lt i =
    elim (Bool-cases (is_file h && is_named mem name size h)) [
      | inl f ↦
          rw (f, lookup_from) (unfold contents in (omega (arith, i.0), omega (arith, i.0, i.1)))
      | inr f ↦
          rw (f, lookup_from)
            (elim (Bool-cases (is_trailer mem h)) [
              | inl t ↦ rw (t, lookup_from) tt
              | inr t ↦
                  rw (t, lookup_from)
                    (lookup_from-IsInside mem c name size fuel (end_of h) (next mem c.limit h)
                      (omega (arith, i.0)) (omega (arith, i.0, i.1)) (omega (arith, i.0))
                      (next-IsRead mem c.limit h))
            ])
    ]

-- `operator[]`, given more rounds than the archive has characters, ends, and what it returns lies
-- between the end of the first header and the limit, whatever the memory holds.
pub lookup-IsInside :
    (mem : ℕ → ℕ) (name : ℕ → ℕ) (size fuel : ℕ) (c : Cpio)
    → 1 ≤ fuel
    → c.limit < c.base + fuel
    → Returns (IsInside c) (lookup mem fuel name size c)
unfolding lookup
lookup-IsInside mem name size fuel c pos lt =
    lookup_from-IsInside mem c name size fuel c.base (get_entry mem c.base c.limit) (omega arith)
      pos lt (get_entry-IsRead mem c.base c.limit)
