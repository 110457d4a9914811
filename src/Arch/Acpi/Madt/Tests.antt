-- ===== src/Arch/Acpi/Madt/Tests.antt =====
-- Runs of kernel/arch/common/acpi/acpi.cpp.
use reaveros.Prelude.{ℕ, zero, suc, ◌≡◌, refl, true, false, none, List, [], ◌∷◌, arith, inr}
use reaveros.Prelude.Outcome.{spin, Yields}
use reaveros.Arch.Acpi.{Memory, xsdt, table_count, find_table, validate, sum_bytes}
use reaveros.Arch.Acpi.Checksum.{with_byte, validate_changed, IsFirst, find_table-IsFirst}
use reaveros.Arch.Acpi.Madt.{Core, madt_signature, parse_entries}
use reaveros.Arch.Acpi.Madt.Result.{IsParsed, AllDiffer, parse_entries-IsParsed}
use reaveros.Arch.Acpi.Madt.Endless.{parse_entries_endless}

abbrev byte_at : List ℕ → ℕ → ℕ
byte_at [] i = 0
byte_at (b ∷ bs) zero = b
byte_at (b ∷ bs) (suc i) = byte_at bs i

-- A table with two local APICs, and an interrupt for the second of them, at 0.
abbrev table_bytes : List ℕ
table_bytes =
    65 ∷ 80 ∷ 73 ∷ 67 ∷ 66 ∷ 0 ∷ 0 ∷ 0 ∷ 5 ∷ 124 ∷ 0 ∷ 0 ∷ 0 ∷ 0 ∷ 0 ∷ 0 ∷ 0 ∷ 0 ∷ 0 ∷ 0 ∷ 0 ∷ 0 ∷ 0
    ∷ 0 ∷ 0 ∷ 0 ∷ 0 ∷ 0 ∷ 0 ∷ 0 ∷ 0 ∷ 0 ∷ 0 ∷ 0 ∷ 0 ∷ 0 ∷ 0 ∷ 0 ∷ 224 ∷ 254 ∷ 0 ∷ 0 ∷ 0 ∷ 0 ∷ 0 ∷ 8
    ∷ 7 ∷ 3 ∷ 1 ∷ 0 ∷ 0 ∷ 0 ∷ 0 ∷ 8 ∷ 9 ∷ 4 ∷ 1 ∷ 0 ∷ 0 ∷ 0 ∷ 4 ∷ 6 ∷ 9 ∷ 5 ∷ 0 ∷ 1 ∷ []

abbrev firmware : Memory
firmware i = byte_at table_bytes i

abbrev no_cores : ℕ → Core
no_cores i = record { apic_id = 0; acpi_id = 0; nmi = none }

abbrev entries_at : List ℕ
entries_at = 44 ∷ 52 ∷ 60 ∷ []

two_differ : AllDiffer ((3, 7) ∷ (4, 9) ∷ [])
two_differ zero zero a b p q e = refl
two_differ zero (suc zero) a b p q e = let x : ⊥ = ground (arith, p, q, e) in elim x [ ]
two_differ (suc zero) zero a b p q e = let x : ⊥ = ground (arith, p, q, e) in elim x [ ]
two_differ (suc zero) (suc zero) a b p q e = refl
two_differ zero (suc (suc j)) a b p q e = let x : ⊥ = ground (arith, q) in elim x [ ]
two_differ (suc zero) (suc (suc j)) a b p q e = let x : ⊥ = ground (arith, q) in elim x [ ]
two_differ (suc (suc i)) j a b p q e = let x : ⊥ = ground (arith, p) in elim x [ ]

parse_entries-IsParsed_example :
    Yields (IsParsed firmware 0 1 entries_at no_cores) (parse_entries 4 firmware 0 1 no_cores)
parse_entries-IsParsed_example =
    parse_entries-IsParsed 4 firmware 0 1 entries_at no_cores (omega arith)
      ((omega arith), refl, ((omega arith), refl, ((omega arith), refl, omega arith))) two_differ
      ((λ e. omega (arith, e)), ((λ e. omega (arith, e)), ((λ e. omega (arith, e)), tt)))

-- The second entry has no length.
parse_entries_endless_example : parse_entries 1000 (with_byte 53 0 firmware) 0 1 no_cores ≡ spin
parse_entries_endless_example =
    parse_entries_endless 1000 (with_byte 53 0 firmware) 0 1 52 (44 ∷ []) no_cores
      (refl, omega arith, refl) (omega arith) refl

checked : validate firmware 0 madt_signature ≡ true
unfolding validate sum_bytes reaveros.Arch.Acpi.has_signature
checked = refl

validate_changed_example : validate (with_byte 46 8 firmware) 0 madt_signature ≡ false
validate_changed_example =
    validate_changed 46 8 firmware 0 madt_signature checked (omega arith) (omega arith)
      (inr (omega arith)) (omega arith) (omega arith) (omega arith)

find_table-IsFirst_example :
    IsFirst firmware
      (xsdt 0)
      madt_signature
      0
      (table_count firmware (xsdt 0))
      (find_table firmware (xsdt 0) madt_signature)
find_table-IsFirst_example = find_table-IsFirst firmware (xsdt 0) madt_signature
