-- ===== src/Arch/Acpi/Madt/Result.antt =====
-- What `parse_madt` of kernel/arch/common/acpi/acpi.cpp finds in a table.
use reaveros.Prelude.{
  ℕ, zero, suc, ◌+◌, ◌≤◌, ◌<◌, ◌≡◌, ◌≢◌, ◌⊎◌, refl, sym, ap, subst, ◌∙◌, some, List, [], ◌∷◌, arith,
  length, get_elem?, ltb, if◌then◌else◌, inl, inr, ◌==◌, ◌||◌, All, Bool-cases, eq_of_==, ==-false,
}
use reaveros.Prelude.Outcome.{Yields}
use reaveros.Arch.Acpi.{Memory, read16, read32}
use reaveros.Arch.Acpi.Madt.{
  Core, Detection, set_core, set_nmi, detect_entry, nmi_entry, MadtResult, parse_entries,
}
use reaveros.Arch.Acpi.Madt.Entries.{
  IsChain, each_entry_lem, enabled, lapic_of, with_ids, detection_of, detect_entries,
}
use reaveros.Arch.Acpi.Madt.Nmi.{
  core_nmi, core_nmis, AllDistinct, nmi_entries-IsNoted, set_core-own, set_core-other,
}

-- The core with the ids.
abbrev pub identified : ℕ × ℕ → Core → Core
identified ids c = record c { apic_id = ids.0; acpi_id = ids.1 }

with_ids-out :
    (cs : List (ℕ × ℕ)) (i : ℕ) (cores : ℕ → Core) (j : ℕ)
    → (j < i) ⊎ (i + length cs ≤ j)
    → with_ids cs i cores j ≡ cores j
with_ids-out [] i cores j h = refl
with_ids-out (c ∷ cs) i cores j h =
    with_ids-out cs (i + 1) (set_core i (identified c (cores i)) cores) j (ground (arith, h))
    ∙ set_core-other i j (identified c (cores i)) cores (ground (arith, h))

with_ids-in :
    (cs : List (ℕ × ℕ)) (i j : ℕ) (cores : ℕ → Core) (k : ℕ) (ids : ℕ × ℕ)
    → j ≡ i + k
    → get_elem? cs k ≡ some ids
    → with_ids cs i cores j ≡ identified ids (cores j)
with_ids-in [] i j cores k ids q e = let x : ⊥ = ground (arith, e) in elim x [ ]
with_ids-in (c ∷ cs) i j cores zero ids q e =
    let p : c ≡ ids = ground (arith, e) in
    let own : i ≡ j = omega (arith, q) in
    with_ids-out cs (i + 1) (set_core i (identified c (cores i)) cores) j (inl (omega (arith, q)))
    ∙ set_core-own i j (identified c (cores i)) cores own
    ∙ ap (λ n. identified c (cores n)) own
    ∙ ap (λ r. identified r (cores j)) p
with_ids-in (c ∷ cs) i j cores (suc k) ids q e =
    with_ids-in cs (i + 1) j (set_core i (identified c (cores i)) cores) k ids (omega (arith, q)) e
    ∙ ap (identified ids) (set_core-other i j (identified c (cores i)) cores (omega (arith, q)))

-- What an entry for the non-maskable interrupt means by the firmware's specification: the id of all
-- cores is 0xff in an entry for local APICs, and 0xffffffff in one for x2APICs.
abbrev pub meant : ℕ → ℕ → ℕ → ℕ → Core → Core
meant all acpi vector flags c =
    if acpi == all || c.acpi_id == acpi then set_nmi vector flags c else c

abbrev pub nmi_meant : Memory → ℕ → Core → Core
nmi_meant mem a c =
    if mem a == 4
    then meant 255 (mem (a + 2)) (mem (a + 5)) (read16 mem (a + 3)) c
    else if mem a == 10
    then meant 4294967295 (read32 mem (a + 4)) (mem (a + 8)) (read16 mem (a + 2)) c
    else c

abbrev pub nmis_meant : Memory → List ℕ → Core → Core
nmis_meant mem [] c = c
nmis_meant mem (a ∷ es) c = nmis_meant mem es (nmi_meant mem a c)

-- No entry for the interrupt of an x2APIC has the id 0xff, which the code takes for all cores, nor
-- 0xffffffff, which it takes for one.
abbrev pub NamesOne : Memory → ℕ → Type 0
NamesOne mem a = mem a ≡ 10 → (read32 mem (a + 4) ≢ 255) × (read32 mem (a + 4) ≢ 4294967295)

core_nmi-meant :
    (mem : Memory) (a : ℕ) (c : Core) → NamesOne mem a → core_nmi mem a c ≡ nmi_meant mem a c
core_nmi-meant mem a c h = elim (Bool-cases (mem a == 4)) [
  | inl y ↦ rw y refl
  | inr y ↦ elim (Bool-cases (mem a == 10)) [
    | inl z ↦
        let one = h (eq_of_== (mem a) 10 z) in
        rw
          (
            y,
            z,
            ==-false (read32 mem (a + 4)) 255 (one.0),
            ==-false (read32 mem (a + 4)) 4294967295 (one.1),
          )
          refl
    | inr z ↦ rw (y, z) refl
  ]
]

core_nmis-meant :
    (mem : Memory) (es : List ℕ) (c : Core)
    → All (NamesOne mem) es
    → core_nmis mem es c ≡ nmis_meant mem es c
core_nmis-meant mem [] c h = refl
core_nmis-meant mem (a ∷ es) c h =
    ap (core_nmis mem es) (core_nmi-meant mem a c h.0)
    ∙ core_nmis-meant mem es (nmi_meant mem a c) h.1

-- The result and the storage after `parse_madt`, in terms of the entries.
pub record IsParsed (mem : Memory) (madt max : ℕ) (es : List ℕ) (cores : ℕ → Core)
    (r : MadtResult × (ℕ → Core)) : Type 0 where
  pub count :
      r.0.core_count ≡ (if ltb max (length (enabled mem es)) then max else length (enabled mem es))
  pub base : r.0.lapic_base ≡ lapic_of mem es (read32 mem (madt + 36))
  pub filled :
      (i : ℕ) (ids : ℕ × ℕ)
      → get_elem? (enabled mem es) i ≡ some ids
      → r.1 i ≡ nmis_meant mem es (identified ids (cores i))
  pub kept : (i : ℕ) → length (enabled mem es) ≤ i → r.1 i ≡ cores i

-- No two enabled cores have the same firmware id.
abbrev pub AllDiffer : List (ℕ × ℕ) → Type 0
AllDiffer cs =
    (i j : ℕ) (a b : ℕ × ℕ) → get_elem? cs i ≡ some a → get_elem? cs j ≡ some b → a.1 ≡ b.1 → i ≡ j

get_elem-within :
    (cs : List (ℕ × ℕ)) (i : ℕ) → i < length cs → (ids : ℕ × ℕ) × (get_elem? cs i ≡ some ids)
get_elem-within [] i lt = let x : ⊥ = omega (arith, lt) in elim x [ ]
get_elem-within (c ∷ cs) zero lt = (c, refl)
get_elem-within (c ∷ cs) (suc i) lt = get_elem-within cs i (omega (arith, lt))

AllDiffer-AllDistinct :
    (cs : List (ℕ × ℕ)) (cores : ℕ → Core)
    → AllDiffer cs
    → AllDistinct (length cs) (with_ids cs 0 cores)
AllDiffer-AllDistinct cs cores u i j a b q =
    let x = get_elem-within cs i a in
    let y = get_elem-within cs j b in
    u i j x.0 y.0 x.1 y.1 (
      sym (ap (λ (c : Core). c.acpi_id) (with_ids-in cs 0 i cores i x.0 (omega arith) x.1))
      ∙ q
      ∙ ap (λ (c : Core). c.acpi_id) (with_ids-in cs 0 j cores j y.0 (omega arith) y.1))

get_elem-bound :
    (cs : List (ℕ × ℕ)) (i : ℕ) (ids : ℕ × ℕ) → get_elem? cs i ≡ some ids → i < length cs
get_elem-bound [] i ids e = let x : ⊥ = ground (arith, e) in elim x [ ]
get_elem-bound (c ∷ cs) zero ids e = omega arith
get_elem-bound (c ∷ cs) (suc i) ids e = omega (arith, get_elem-bound cs i ids e)

-- A table whose entries follow one another up to its end, whose enabled cores have different firmware
-- ids, and in which no entry for the interrupt of an x2APIC has the id 0xff or 0xffffffff, is read within
-- one more round than there are entries. The number of cores is that of the enabled entries, cut at the
-- maximum; the storage has the ids of all of them, also beyond the maximum, in their order, each with
-- the interrupt that the entries mean for it by the firmware's specification; the rest of the storage is
-- as it was; and the address is that of the last entry that overrides it.
pub parse_entries-IsParsed :
    (fuel : ℕ) (mem : Memory) (madt max : ℕ) (es : List ℕ) (cores : ℕ → Core)
    → length es < fuel
    → IsChain mem madt 44 es
    → AllDiffer (enabled mem es)
    → All (NamesOne mem) es
    → Yields (IsParsed mem madt max es cores) (parse_entries fuel mem madt max cores)
unfolding parse_entries
parse_entries-IsParsed fuel mem madt max es cores lt c u named =
    let start : Detection = record {
      cores = cores;
      detected = 0;
      lapic = read32 mem (madt + 36);
    } in
    let d : Detection = detection_of mem es start in
    let z : length (enabled mem es) ≡ 0 + length (enabled mem es) = omega arith in
    let n = nmi_entries-IsNoted mem es d (
      subst (λ k. AllDistinct k (with_ids (enabled mem es) 0 cores)) z
        (AllDiffer-AllDistinct (enabled mem es) cores u)) in
    rw (each_entry_lem detect_entry fuel mem madt 44 es start lt c, detect_entries mem es start)
      (rw (each_entry_lem nmi_entry fuel mem madt 44 es d lt c) (record {
        count = ap (λ k. if ltb max k then max else k) (n.counted ∙ sym z);
        base = n.based;
        filled = λ i ids e.
            n.within i (omega (arith, get_elem-bound (enabled mem es) i ids e))
            ∙ ap (core_nmis mem es) (with_ids-in (enabled mem es) 0 i cores i ids (omega arith) e)
            ∙ core_nmis-meant mem es (identified ids (cores i)) named;
        kept = λ i le.
            n.beyond i (omega (arith, le))
            ∙ with_ids-out (enabled mem es) 0 cores i (inr (omega (arith, le)));
      }))
