-- ===== src/Arch/Acpi.antt =====
-- kernel/arch/common/acpi/acpi.cpp: the tables of the firmware, which are read out of the memory by
-- their addresses.
pub mod Checksum
pub mod Madt
use reaveros.Prelude.{
  ℕ, zero, suc, ◌+◌, ◌-◌, ◌*◌, ◌/◌, ◌%◌, ◌^◌, Bool, true, false, Option, none, some, List, [], ◌∷◌,
  ◌==◌, leb, ◌&&◌, not, if◌then◌else◌,
}
use reaveros.Prelude.Outcome.{Outcome, done, panic}

-- The bytes of the memory.
abbrev pub Memory : Type 0
Memory = ℕ → ℕ

-- The fields of the packed structures, with the least byte first.
abbrev pub read16 : Memory → ℕ → ℕ
read16 mem a = mem a + 256 * mem (a + 1)

abbrev pub read32 : Memory → ℕ → ℕ
read32 mem a = read16 mem a + 65536 * read16 mem (a + 2)

abbrev pub read64 : Memory → ℕ → ℕ
read64 mem a = read32 mem a + 4294967296 * read32 mem (a + 4)

-- `std::memcmp` of a signature.
unfoldable pub has_signature : Memory → ℕ → List ℕ → Bool
has_signature mem a [] = true
has_signature mem a (c ∷ cs) = mem a == c && has_signature mem (a + 1) cs

-- The loops over the bytes, with the sum so far.
unfoldable pub sum_bytes : Memory → ℕ → ℕ → ℕ → ℕ
sum_bytes mem a zero sum = sum
sum_bytes mem a (suc n) sum = sum_bytes mem (a + 1) n ((sum + mem a) % 256)

-- `description_header::validate`; the length is at 4.
unfoldable pub validate : Memory → ℕ → List ℕ → Bool
unfolding has_signature sum_bytes
validate mem a signature =
    if not (has_signature mem a signature)
    then false
    else sum_bytes mem a (read32 mem (a + 4)) 0 == 0

-- "RSD PTR "
abbrev pub rsdp_signature : List ℕ
rsdp_signature = 82 ∷ 83 ∷ 68 ∷ 32 ∷ 80 ∷ 84 ∷ 82 ∷ 32 ∷ []

-- `rsdp::validate`; the revision is at 15, and the length at 20.
unfoldable pub validate_rsdp : Memory → ℕ → Bool
unfolding has_signature sum_bytes
validate_rsdp mem a =
    if not (has_signature mem a rsdp_signature)
    then false
    else if not (sum_bytes mem a 20 0 == 0)
    then false
    else if mem (a + 15) == 0
    then true
    else sum_bytes mem a (read32 mem (a + 20)) 0 == 0

-- `root_xsdt` and `root_rsdt`: the address of one of them, or that of neither.
pub data Root : Type 0 where
  xsdt : ℕ → Root
  rsdt : ℕ → Root

-- The type of the root's `tables`: their number of bytes, and how one is read.
abbrev pub table_pointer : Memory → Root → ℕ → ℕ
table_pointer mem (xsdt a) i = read64 mem (a + 36 + 8 * i)
table_pointer mem (rsdt a) i = read32 mem (a + 36 + 4 * i)

-- (root->length - 36) / sizeof(root->tables), where the difference is a 32-bit word.
abbrev pub table_count : Memory → Root → ℕ
table_count mem (xsdt a) = (read32 mem (a + 4) + (2 ^ 32 - 36)) % 2 ^ 32 / 8
table_count mem (rsdt a) = (read32 mem (a + 4) + (2 ^ 32 - 36)) % 2 ^ 32 / 4

-- The loop of `find_table` from the `i`-th table on.
unfoldable pub find_table_from : Memory → Root → List ℕ → ℕ → ℕ → Option ℕ
unfolding validate
find_table_from mem root signature i zero = none
find_table_from mem root signature i (suc n) =
    let rest = find_table_from mem root signature (suc i) n in
    if validate mem (table_pointer mem root i) signature
    then some (table_pointer mem root i)
    else rest

-- `find_table`.
unfoldable pub find_table : Memory → Root → List ℕ → Option ℕ
unfolding find_table_from
find_table mem root signature = find_table_from mem root signature 0 (table_count mem root)

-- "XSDT" and "RSDT"
abbrev pub xsdt_signature : List ℕ
xsdt_signature = 88 ∷ 83 ∷ 68 ∷ 84 ∷ []

abbrev pub rsdt_signature : List ℕ
rsdt_signature = 82 ∷ 83 ∷ 68 ∷ 84 ∷ []

-- The fallback of `initialize`.
abbrev pub use_rsdt : Memory → ℕ → Outcome Root
use_rsdt mem a =
    if validate mem (read32 mem (a + 16)) rsdt_signature
    then done (rsdt (read32 mem (a + 16)))
    else panic

-- `initialize`.
unfoldable pub initialize_acpi : Memory → ℕ → Outcome Root
unfolding validate_rsdp validate
initialize_acpi mem a =
    if not (validate_rsdp mem a)
    then panic
    else if leb 2 (mem (a + 15))
    then if validate mem (read64 mem (a + 24)) xsdt_signature
      then done (xsdt (read64 mem (a + 24)))
      else use_rsdt mem a
    else use_rsdt mem a
