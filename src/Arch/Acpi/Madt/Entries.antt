-- ===== src/Arch/Acpi/Madt/Entries.antt =====
-- The entries of the table that `parse_madt` of kernel/arch/common/acpi/acpi.cpp reads, one by one, and
-- what the two switches make of the cores.
use reaveros.Prelude.{
  ℕ, zero, suc, ◌+◌, ◌%◌, ◌≤◌, ◌<◌, ◌≡◌, refl, ap, subst, ◌∙◌, inl, inr, true, false, List, [], ◌∷◌,
  arith, length, ◌==◌, ltb, if◌then◌else◌, Bool-cases,
}
use reaveros.Prelude.Outcome.{done}
use reaveros.Arch.Acpi.{Memory, read32, read64}
use reaveros.Arch.Acpi.Madt.{Core, Detection, set_core, add_core, detect_entry, each_entry}

-- The addresses of the entries from an offset up to the end of the table.
abbrev pub IsChain : Memory → ℕ → ℕ → List ℕ → Type 0
IsChain mem madt offset [] = read32 mem (madt + 4) ≤ offset
IsChain mem madt offset (a ∷ es) =
    (offset < read32 mem (madt + 4))
    × (a ≡ madt + offset)
    × IsChain mem madt (offset + mem (a + 1)) es

abbrev pub visit_all :
    (Memory → ℕ → Detection → Detection) → Memory → List ℕ → Detection → Detection
visit_all visit mem [] d = d
visit_all visit mem (a ∷ es) d = visit_all visit mem es (visit mem a d)

-- A loop ends, and visits each entry once.
pub each_entry_lem :
    (visit : Memory → ℕ → Detection → Detection) (fuel : ℕ) (mem : Memory) (madt offset : ℕ)
    (es : List ℕ) (d : Detection)
    → length es < fuel
    → IsChain mem madt offset es
    → each_entry visit fuel mem madt offset d ≡ done (visit_all visit mem es d)
unfolding each_entry
each_entry_lem visit zero mem madt offset es d lt c = let x : ⊥ = omega (arith, lt) in elim x [ ]
each_entry_lem visit (suc fuel) mem madt offset [] d lt c =
    let e : ltb offset (read32 mem (madt + 4)) ≡ false = ground (arith, c) in
    rw (e, each_entry) refl
each_entry_lem visit (suc fuel) mem madt offset (a ∷ es) d lt c =
    let e : ltb offset (read32 mem (madt + 4)) ≡ true = ground (arith, c.0) in
    rw (e, each_entry)
      (subst
        (λ b.
          each_entry visit fuel mem madt (offset + mem (b + 1)) (visit mem b d)
          ≡ done (visit_all visit mem es (visit mem a d)))
        (c.1)
        (each_entry_lem visit fuel mem madt (offset + mem (a + 1)) es (visit mem a d)
          (omega (arith, lt)) (c.2)))

-- The ids of the cores that the entries enable, in their order: the local APIC's, and the firmware's.
abbrev pub enabled_at : Memory → ℕ → List (ℕ × ℕ) → List (ℕ × ℕ)
enabled_at mem a rest =
    if mem a == 0
    then if read32 mem (a + 4) % 2 == 1 then (mem (a + 3), mem (a + 2)) ∷ rest else rest
    else if mem a == 9
    then if read32 mem (a + 8) % 2 == 1
      then (read32 mem (a + 4), read32 mem (a + 12)) ∷ rest
      else rest
    else rest

abbrev pub enabled : Memory → List ℕ → List (ℕ × ℕ)
enabled mem [] = []
enabled mem (a ∷ es) = enabled_at mem a (enabled mem es)

-- The address of the local APICs, which the last entry that overrides it tells.
abbrev pub lapic_of : Memory → List ℕ → ℕ → ℕ
lapic_of mem [] lapic = lapic
lapic_of mem (a ∷ es) lapic = lapic_of mem es (if mem a == 5 then read64 mem (a + 4) else lapic)

-- What a list of ids makes of the storage, from a place on.
abbrev pub with_ids : List (ℕ × ℕ) → ℕ → (ℕ → Core) → ℕ → Core
with_ids [] i cores = cores
with_ids (c ∷ cs) i cores =
    with_ids cs (i + 1) (set_core i (record (cores i) { apic_id = c.0; acpi_id = c.1 }) cores)

abbrev pub detection_of : Memory → List ℕ → Detection → Detection
detection_of mem es d = record {
  cores = with_ids (enabled mem es) d.detected d.cores;
  detected = d.detected + length (enabled mem es);
  lapic = lapic_of mem es d.lapic;
}

one_more :
    (mem : Memory) (es : List ℕ) (d : Detection) (n : ℕ)
    → d.detected ≡ n + 1
    → detection_of mem es d
      ≡ (record (detection_of mem es d) { detected = n + suc (length (enabled mem es)) })
one_more mem es d n e =
    ap (λ k. record (detection_of mem es d) { detected = k })
      {x = d.detected + length (enabled mem es)} {y = n + suc (length (enabled mem es))}
      (omega (arith, e))

-- One entry, before the others.
detect-one :
    (mem : Memory) (a : ℕ) (es : List ℕ) (d : Detection)
    → detection_of mem es (detect_entry mem a d) ≡ detection_of mem (a ∷ es) d
unfolding detect_entry
detect-one mem a es d = elim (Bool-cases (mem a == 0)) [
  | inl y ↦
      let n : (mem a == 5) ≡ false = ground (arith, y) in
      elim (Bool-cases (read32 mem (a + 4) % 2 == 1)) [
        | inl z ↦
            rw (y, z, n) (one_more mem es (add_core (mem (a + 3)) (mem (a + 2)) d) d.detected refl)
        | inr z ↦ rw (y, z, n) refl
      ]
  | inr y ↦ elim (Bool-cases (mem a == 5)) [
    | inl z ↦ let n : (mem a == 9) ≡ false = ground (arith, z) in rw (y, z, n) refl
    | inr z ↦ elim (Bool-cases (mem a == 9)) [
      | inl w ↦ elim (Bool-cases (read32 mem (a + 8) % 2 == 1)) [
        | inl u ↦
            rw (y, z, w, u)
              (one_more mem es (add_core (read32 mem (a + 4)) (read32 mem (a + 12)) d) d.detected
                refl)
        | inr u ↦ rw (y, z, w, u) refl
      ]
      | inr w ↦ rw (y, z, w) refl
    ]
  ]
]

-- The first loop fills the storage with the ids of the enabled cores, and counts them.
pub detect_entries :
    (mem : Memory) (es : List ℕ) (d : Detection)
    → visit_all detect_entry mem es d ≡ detection_of mem es d
detect_entries mem [] d =
    ap (λ n. record d { detected = n }) {x = d.detected} {y = d.detected + 0} (omega arith)
detect_entries mem (a ∷ es) d = detect_entries mem es (detect_entry mem a d) ∙ detect-one mem a es d
