-- ===== src/Arch/Acpi/Madt/Endless.antt =====
-- The entries of no length in kernel/arch/common/acpi/acpi.cpp.
use reaveros.Prelude.{
  ℕ, zero, suc, ◌+◌, ◌<◌, ◌≡◌, refl, sym, subst, true, List, [], ◌∷◌, arith, ltb,
}
use reaveros.Prelude.Outcome.{spin}
use reaveros.Arch.Acpi.{Memory, read32}
use reaveros.Arch.Acpi.Madt.{Core, Detection, detect_entry, each_entry, parse_entries}

-- A loop that stands at an entry of no length goes on for ever.
each_entry-stuck :
    (visit : Memory → ℕ → Detection → Detection) (fuel : ℕ) (mem : Memory) (madt offset : ℕ)
    (d : Detection)
    → offset < read32 mem (madt + 4)
    → mem (madt + offset + 1) ≡ 0
    → each_entry visit fuel mem madt offset d ≡ spin
unfolding each_entry
each_entry-stuck visit zero mem madt offset d lt e = refl
each_entry-stuck visit (suc fuel) mem madt offset d lt e =
    let t : ltb offset (read32 mem (madt + 4)) ≡ true = ground (arith, lt) in
    let same : offset ≡ offset + mem (madt + offset + 1) = omega (arith, e) in
    rw (t, each_entry)
      (subst (λ o. each_entry visit fuel mem madt o (visit mem (madt + offset) d) ≡ spin) same
        (each_entry-stuck visit fuel mem madt offset (visit mem (madt + offset) d) lt e))

-- The offsets from one to another, entry by entry.
abbrev pub Reaches : Memory → ℕ → ℕ → List ℕ → ℕ → Type 0
Reaches mem madt offset [] end = offset ≡ end
Reaches mem madt offset (o ∷ os) end =
    (offset ≡ o) × (o < read32 mem (madt + 4)) × Reaches mem madt (o + mem (madt + o + 1)) os end

each_entry-endless :
    (visit : Memory → ℕ → Detection → Detection) (fuel : ℕ) (mem : Memory) (madt offset end : ℕ)
    (os : List ℕ) (d : Detection)
    → Reaches mem madt offset os end
    → end < read32 mem (madt + 4)
    → mem (madt + end + 1) ≡ 0
    → each_entry visit fuel mem madt offset d ≡ spin
unfolding each_entry
each_entry-endless visit zero mem madt offset end os d r lt e = refl
each_entry-endless visit (suc fuel) mem madt offset end [] d r lt e =
    subst (λ o. each_entry visit (suc fuel) mem madt o d ≡ spin) (sym r)
      (each_entry-stuck visit (suc fuel) mem madt end d lt e)
each_entry-endless visit (suc fuel) mem madt offset end (o ∷ os) d r lt e =
    let t : ltb o (read32 mem (madt + 4)) ≡ true = ground (arith, r.1) in
    subst (λ x. each_entry visit (suc fuel) mem madt x d ≡ spin) (sym (r.0))
      (rw (t, each_entry)
        (each_entry-endless visit fuel mem madt (o + mem (madt + o + 1)) end os
          (visit mem (madt + o) d) (r.2) lt e))

-- Where the loop reaches an entry of length 0 within the table, it never ends, however many rounds it
-- is given: the kernel does not start.
pub parse_entries_endless :
    (fuel : ℕ) (mem : Memory) (madt max end : ℕ) (os : List ℕ) (cores : ℕ → Core)
    → Reaches mem madt 44 os end
    → end < read32 mem (madt + 4)
    → mem (madt + end + 1) ≡ 0
    → parse_entries fuel mem madt max cores ≡ spin
unfolding parse_entries
parse_entries_endless fuel mem madt max end os cores r lt e =
    rw
      (each_entry-endless detect_entry fuel mem madt 44 end os
        (record { cores = cores; detected = 0; lapic = read32 mem (madt + 36) }) r lt e)
      refl
