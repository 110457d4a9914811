-- ===== src/Archive/Tests.antt =====
-- A CPIO archive with one file "a", whose contents are "xyz", and the trailer.
use reaveros.Prelude.{
  ℕ, zero, suc, ◌≡◌, refl, true, false, some, List, [], ◌∷◌, ◌++◌, arith, Returns,
}
use reaveros.Rosestd.StringView.{literal, equal_views, compare_views, compare_from}
use reaveros.Rosestd.CharConv.{from_chars, from_chars_loop, digit, to_value}
use reaveros.Archive.Cpio.{
  Header, entry, magic, trailer, parse_field, read_fields, has_magic, get_entry, filename, is_named,
  is_trailer, Cpio, try_cpio, lookup,
}
use reaveros.Archive.Cpio.Laws.{
  IsRead, get_entry-IsRead, Listing, last, more, first_file, lookup-Listing, IsInside,
  lookup-IsInside,
}
use reaveros.Archive.Cpio.Named.{starts_alike}
use reaveros.Archive.Cpio.Opening.{IsVerdict, try_cpio-IsVerdict}

abbrev zeros : ℕ → List ℕ
zeros zero = []
zeros (suc n) = 48 ∷ zeros n

-- 000081a4, 00000003, 00000002 and 0000000b.
abbrev file_mode : List ℕ
file_mode = 48 ∷ 48 ∷ 48 ∷ 48 ∷ 56 ∷ 49 ∷ 97 ∷ 52 ∷ []

abbrev eight : ℕ → List ℕ
eight c = 48 ∷ 48 ∷ 48 ∷ 48 ∷ 48 ∷ 48 ∷ 48 ∷ c ∷ []

abbrev header_text : List ℕ → List ℕ → List ℕ → List ℕ
header_text mode filesize namesize =
    magic ++ (zeros 8 ++ (mode ++ (zeros 32 ++ (filesize ++ (zeros 32 ++ (namesize ++ zeros 8))))))

abbrev text : List ℕ
text =
    header_text file_mode (eight 51) (eight 50)
    ++ (97
        ∷ 0
        ∷ 120
        ∷ 121
        ∷ 122
        ∷ 0
        ∷ (header_text (zeros 8) (eight 48) (eight 98) ++ (trailer ++ (0 ∷ 0 ∷ 0 ∷ 0 ∷ 0 ∷ []))))

abbrev demo : ℕ → ℕ
demo = literal text

abbrev file_a : Header
file_a = record {
  hdr = 0;
  namesize = 2;
  name_padding = 0;
  filesize = 3;
  file_padding = 1;
  mode = 33188;
}

abbrev last_entry : Header
last_entry = record {
  hdr = 116;
  namesize = 11;
  name_padding = 3;
  filesize = 0;
  file_padding = 0;
  mode = 0;
}

abbrev demo_cpio : Cpio
demo_cpio = record { size = 1; base = 0; limit = 241 }

first_entry : get_entry demo 0 241 ≡ entry file_a
unfolding get_entry has_magic equal_views compare_views compare_from read_fields parse_field
    from_chars from_chars_loop digit to_value
first_entry = refl

second_entry : get_entry demo 116 241 ≡ entry last_entry
unfolding get_entry has_magic equal_views compare_views compare_from read_fields parse_field
    from_chars from_chars_loop digit to_value
second_entry = refl

file_a_no_trailer : is_trailer demo file_a ≡ false
unfolding is_trailer is_named equal_views compare_views compare_from filename
file_a_no_trailer = refl

last_is_trailer : is_trailer demo last_entry ≡ true
unfolding is_trailer is_named equal_views compare_views compare_from filename
last_is_trailer = refl

demo-Listing : Listing demo 241 0 (file_a ∷ last_entry ∷ [])
demo-Listing =
    more 0 file_a (last_entry ∷ []) first_entry file_a_no_trailer
      (last 116 last_entry second_entry last_is_trailer)

get_entry-IsRead_run : IsRead 0 241 (get_entry demo 0 241)
get_entry-IsRead_run = get_entry-IsRead demo 0 241

lookup-Listing_example :
    lookup demo 5 (literal (97 ∷ [])) 1 demo_cpio
    ≡ some (first_file (starts_alike demo (literal (97 ∷ [])) 1) (file_a ∷ last_entry ∷ []))
lookup-Listing_example =
    lookup-Listing demo (literal (97 ∷ [])) 1 5 demo_cpio (file_a ∷ last_entry ∷ []) demo-Listing
      (omega arith)

lookup-IsInside_example :
    Returns (IsInside demo_cpio) (lookup demo 300 (literal (97 ∷ [])) 1 demo_cpio)
lookup-IsInside_example =
    lookup-IsInside demo (literal (97 ∷ [])) 1 300 demo_cpio (omega arith) (omega arith)

try_cpio-IsVerdict_example : Returns (IsVerdict demo 0 241 0 0) (try_cpio demo 300 0 241)
try_cpio-IsVerdict_example = try_cpio-IsVerdict demo 300 0 241 (omega arith)
