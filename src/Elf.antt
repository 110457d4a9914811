-- ===== src/Elf.antt =====
-- libraries/elf: `try_parse` of src/elf.cpp, which checks an image in memory and finds its tables. A null
-- pointer is none; the numbers are read with their least byte first, and words wrap at 2^64.
pub mod Steps
pub mod Segments
pub mod Accepted
mod Tests
use reaveros.Prelude.{
  ℕ, zero, suc, ◌+◌, ◌-◌, ◌*◌, ◌/◌, ◌%◌, ◌^◌, Bool, true, false, Option, none, some, List, [], ◌∷◌,
  ◌==◌, ltb, leb, ◌&&◌, ◌||◌, not, if◌then◌else◌,
}

-- The messages.
pub data Reason : Type 0 where
  too_small bad_magic not_elf64 not_little_endian not_loadable not_amd64 not_version_1 : Reason
  program_headers_beyond section_headers_beyond two_dynamic_segments unsupported_segment : Reason
  unsupported_rela unsupported_syment unsupported_tag init_without_size size_without_init : Reason
  section_beyond hash_section unsupported_section symtab_without_section : Reason

-- A value, a refusal with its offset, or a loop with no rounds left.
pub data Verdict {ℓ} (A : Type ℓ) : Type ℓ where
  accepted : A → Verdict A
  refused : Reason → ℕ → Verdict A
  unending : Verdict A

infixl 5 ◌>>=◌
abbrev pub ◌>>=◌ {ℓ κ} : {A : Type ℓ} {B : Type κ} → Verdict A → (A → Verdict B) → Verdict B
accepted a >>= f = f a
refused r n >>= f = refused r n
unending >>= f = unending

-- A refusal unless the condition holds.
abbrev pub check : Bool → Reason → ℕ → Verdict (Unit {0})
check true r n = accepted tt
check false r n = refused r n

-- A number of the bytes of an image.
abbrev pub number : (ℕ → ℕ) → ℕ → ℕ → ℕ
number mem zero a = 0
number mem (suc n) a = mem a + 256 * number mem n (a + 1)

-- phoff + phentsize * phnum, and the same for sections, where the product is an `int`.
abbrev pub as_int : ℕ → ℕ
as_int p = if leb (2 ^ 31) p then p + (2 ^ 64 - 2 ^ 32) else p

abbrev pub table_end : ℕ → ℕ → ℕ → ℕ
table_end offset entry_size entries = (offset + as_int (entry_size * entries)) % 2 ^ 64

-- `segment_types` that are let through.
abbrev pub is_segment : ℕ → Bool
is_segment t = t == 1 || t == 4 || t == 6 || t == 1685382481 || t == 1685382482

-- The case of a DYNAMIC segment.
abbrev pub found_dynamic : Option ℕ → ℕ → ℕ → Verdict (Option ℕ)
found_dynamic none at offset = accepted (some at)
found_dynamic (some d) at offset = refused two_dynamic_segments offset

-- The switch at the program header `at`, with the DYNAMIC segment so far.
unfoldable pub segment_step : (ℕ → ℕ) → ℕ → Option ℕ → Verdict (Option ℕ)
segment_step mem at dynamic =
    if is_segment (number mem 4 at)
    then accepted dynamic
    else if number mem 4 at == 2
    then found_dynamic dynamic at (number mem 8 (at + 8))
    else refused unsupported_segment (number mem 8 (at + 8))

-- The loop over the program headers, from the `i`-th on.
unfoldable pub scan_segments : (ℕ → ℕ) → ℕ → ℕ → ℕ → ℕ → Option ℕ → Verdict (Option ℕ)
unfolding segment_step
scan_segments mem table entry_size i zero dynamic = accepted dynamic
scan_segments mem table entry_size i (suc n) dynamic =
    segment_step mem (table + i * entry_size) dynamic >>= λ d.
    scan_segments mem table entry_size (suc i) n d

-- What the dynamic section tells: the members of `elf_image`, and the variables of the loop.
pub record Dynamic : Type 0 where
  pub strtab : Option ℕ
  pub symtab : Option ℕ
  pub relocations : Option ℕ
  pub relocations_count : ℕ
  pub init : Option ℕ
  pub init_size : Option ℕ
  pub count : ℕ

-- The tags that are passed over.
abbrev pub is_ignored : ℕ → Bool
is_ignored t =
    t == 1
    || t == 10
    || t == 14
    || t == 21
    || t == 24
    || t == 30
    || t == 1879047925
    || t == 1879048185
    || t == 1879048187

-- The switch at a dynamic entry of a tag and a value, `offset` behind the start of the image.
unfoldable pub dynamic_step : ℕ → ℕ → ℕ → ℕ → Dynamic → Verdict Dynamic
dynamic_step base offset tag value d =
    if is_ignored tag
    then accepted d
    else if tag == 5
    then accepted (record d { strtab = some (base + value) })
    else if tag == 6
    then accepted (record d { symtab = some (base + value) })
    else if tag == 7
    then accepted (record d { relocations = some (base + value) })
    else if tag == 8
    then accepted (record d { relocations_count = value / 24 })
    else if tag == 9
    then (check (value == 24) unsupported_rela 0 >>= λ _. accepted d)
    else if tag == 11
    then (check (value == 24) unsupported_syment 0 >>= λ _. accepted d)
    else if tag == 25
    then accepted (record d { init = some value })
    else if tag == 27
    then accepted (record d { init_size = some value })
    else refused unsupported_tag offset

-- The loop over the dynamic entries, up to one of the tag 0.
unfoldable pub scan_dynamic : ℕ → (ℕ → ℕ) → ℕ → ℕ → Dynamic → Verdict Dynamic
unfolding dynamic_step
scan_dynamic zero mem base offset d = unending
scan_dynamic (suc fuel) mem base offset d = elim (number mem 8 (base + offset) == 0) [
  | true ↦ accepted d
  | false ↦
      dynamic_step base offset (number mem 8 (base + offset)) (number mem 8 (base + offset + 8)) d
      >>= λ e. scan_dynamic fuel mem base (offset + 16) (record e { count = e.count + 1 })
]

-- `section_types` that are let through.
abbrev pub is_section : ℕ → Bool
is_section t =
    t == 1 || t == 2 || t == 3 || t == 4 || t == 6 || t == 7 || t == 8 || t == 14 || t == 1879048182

-- Whether the symbol table is the one at an address.
abbrev pub is_symtab : Option ℕ → ℕ → Bool
is_symtab none a = false
is_symtab (some s) a = a == s

-- The body of the loop over the sections at the header `at`: the size of the symbol table so far.
unfoldable pub section_step : (ℕ → ℕ) → ℕ → ℕ → Option ℕ → ℕ → ℕ → Verdict ℕ
section_step mem base length symtab at symtab_size =
    let offset = number mem 8 (at + 24) in
    let size = number mem 8 (at + 32) in
    let type = number mem 4 (at + 4) in
    check (not (ltb length ((offset + size) % 2 ^ 64))) section_beyond offset >>= λ _.
    if is_section type
    then accepted symtab_size
    else if type == 5
    then refused hash_section offset
    else if type == 11
    then accepted (if is_symtab symtab (base + offset) then size / 24 else symtab_size)
    else refused unsupported_section offset

-- The loop over the sections from the `i`-th on.
unfoldable pub scan_sections : (ℕ → ℕ) → ℕ → ℕ → Option ℕ → ℕ → ℕ → ℕ → ℕ → ℕ → Verdict ℕ
unfolding section_step
scan_sections mem base length symtab table entry_size i zero symtab_size = accepted symtab_size
scan_sections mem base length symtab table entry_size i (suc n) symtab_size =
    section_step mem base length symtab (table + i * entry_size) symtab_size >>= λ s.
    scan_sections mem base length symtab table entry_size (suc i) n s

-- `elf_image`, of which `preinit` and `fini` are never set.
pub record Image : Type 0 where
  pub dynamic_base : Option ℕ
  pub tables : Dynamic
  pub symtab_size : ℕ

abbrev pub no_tables : Dynamic
no_tables = record {
  strtab = none;
  symtab = none;
  relocations = none;
  relocations_count = 0;
  init = none;
  init_size = none;
  count = 0;
}

-- The checks of the table of initialisers behind the loop.
abbrev pub check_init : Option ℕ → Option ℕ → Verdict (Unit {0})
check_init none none = accepted tt
check_init (some i) none = refused init_without_size 0
check_init none (some s) = refused size_without_init 0
check_init (some i) (some s) = accepted tt

-- The part of `try_parse` about the dynamic section.
unfoldable pub read_dynamic : ℕ → (ℕ → ℕ) → ℕ → Option ℕ → Verdict Dynamic
unfolding scan_dynamic
read_dynamic fuel mem base none = accepted no_tables
read_dynamic fuel mem base (some at) =
    scan_dynamic fuel mem base (number mem 8 (at + 8)) no_tables >>= λ d.
    check_init d.init d.init_size >>= λ _. accepted d

-- The ends of the tables of an image.
abbrev pub segments_end : (ℕ → ℕ) → ℕ → ℕ
segments_end mem base =
    table_end (number mem 8 (base + 32)) (number mem 2 (base + 54)) (number mem 2 (base + 56))

abbrev pub sections_end : (ℕ → ℕ) → ℕ → ℕ
sections_end mem base =
    table_end (number mem 8 (base + 40)) (number mem 2 (base + 58)) (number mem 2 (base + 60))

-- The checks of the header at the start of the image.
unfoldable pub check_header : (ℕ → ℕ) → ℕ → ℕ → Verdict (Unit {0})
check_header mem base length = check (not (ltb length 64)) too_small 0 >>= λ _.
    check (mem base == 127 && mem (base + 1) == 69 && mem (base + 2) == 76 && mem (base + 3) == 70)
      bad_magic 0
    >>= λ _. check (mem (base + 4) == 2) not_elf64 0 >>= λ _.
        check (mem (base + 5) == 1) not_little_endian 0 >>= λ _.
        check (number mem 2 (base + 16) == 2 || number mem 2 (base + 16) == 3) not_loadable 0
        >>= λ _. check (number mem 2 (base + 18) == 62) not_amd64 0 >>= λ _.
            check (number mem 4 (base + 20) == 1) not_version_1 0 >>= λ _.
            check (not (ltb length (segments_end mem base))) program_headers_beyond 0 >>= λ _.
            check (not (ltb length (sections_end mem base))) section_headers_beyond 0

-- Where the DYNAMIC segment starts, and whether a symbol table has a size.
abbrev pub segment_start : (ℕ → ℕ) → ℕ → Option ℕ → Option ℕ
segment_start mem base none = none
segment_start mem base (some at) = some (base + number mem 8 (at + 8))

abbrev pub sized : Option ℕ → ℕ → Bool
sized none size = true
sized (some s) size = not (size == 0)

-- The number of rounds of the loop over the sections, which runs from 1 on until the index is the
-- number of sections.
abbrev pub section_rounds : ℕ → ℕ
section_rounds shnum = (shnum + (2 ^ 64 - 1)) % 2 ^ 64

-- `try_parse`.
unfoldable pub try_parse : ℕ → (ℕ → ℕ) → ℕ → ℕ → Verdict Image
unfolding check_header scan_segments read_dynamic scan_sections
try_parse fuel mem base length = check_header mem base length >>= λ _.
    scan_segments mem (base + number mem 8 (base + 32)) (number mem 2 (base + 54)) 0
      (number mem 2 (base + 56)) none
    >>= λ dynamic. read_dynamic fuel mem base dynamic >>= λ d.
        scan_sections mem base length d.symtab (base + number mem 8 (base + 40))
          (number mem 2 (base + 58)) 1 (section_rounds (number mem 2 (base + 60))) 0
        >>= λ symtab_size. check (sized d.symtab symtab_size) symtab_without_section 0 >>= λ _.
            accepted (record {
              dynamic_base = segment_start mem base dynamic;
              tables = d;
              symtab_size = symtab_size;
            })
