-- ===== src/Arch/Acpi/Madt.antt =====
-- `parse_madt` of kernel/arch/common/acpi/acpi.cpp, and the `core` of kernel/arch/amd64/cpu/core.h as far as
-- it is set. An entry is told by its offset from the table.
pub mod Entries
pub mod Nmi
pub mod Endless
pub mod Result
mod Tests
use reaveros.Prelude.{
  ℕ, zero, suc, ◌+◌, ◌-◌, ◌*◌, ◌%◌, Bool, true, false, Option, none, some, List, [], ◌∷◌, ◌==◌, ltb,
  if◌then◌else◌,
}
use reaveros.Prelude.Outcome.{Outcome, done, panic, spin, ◌>>=◌}
use reaveros.Arch.Acpi.{Memory, Root, read16, read32, read64, find_table}

-- A core: `_apic_id` and `_acpi_id`, and `_nmi_vector` with `_nmi_flags`.
pub record Core : Type 0 where
  pub apic_id : ℕ
  pub acpi_id : ℕ
  pub nmi : Option (ℕ × ℕ)

-- The variables of the loops: `cores_storage`, which is not bounded, `detected_cores` and `lapic_address`.
pub record Detection : Type 0 where
  pub cores : ℕ → Core
  pub detected : ℕ
  pub lapic : ℕ

abbrev pub set_core : ℕ → Core → (ℕ → Core) → ℕ → Core
set_core i c cores j = if i == j then c else cores j

-- cores_storage[detected_cores++].initialize_ids(apic_id, acpi_id).
abbrev pub add_core : ℕ → ℕ → Detection → Detection
add_core apic acpi d = record d {
  cores =
      set_core d.detected (record (d.cores d.detected) { apic_id = apic; acpi_id = acpi }) d.cores;
  detected = d.detected + 1;
}

-- The switch of the first loop, at the entry `a`: a local APIC, its address, or an x2APIC. The other
-- types are printed, or passed over.
unfoldable pub detect_entry : Memory → ℕ → Detection → Detection
detect_entry mem a d =
    if mem a == 0
    then if read32 mem (a + 4) % 2 == 1 then add_core (mem (a + 3)) (mem (a + 2)) d else d
    else if mem a == 5
    then (record d { lapic = read64 mem (a + 4) })
    else if mem a == 9
    then if read32 mem (a + 8) % 2 == 1
      then add_core (read32 mem (a + 4)) (read32 mem (a + 12)) d
      else d
    else d

abbrev pub set_nmi : ℕ → ℕ → Core → Core
set_nmi vector flags c = record c { nmi = some (vector, flags) }

-- The loop over all cores, from the `i`-th on.
unfoldable pub set_all : ℕ → ℕ → ℕ → ℕ → (ℕ → Core) → ℕ → Core
set_all vector flags i zero cores = cores
set_all vector flags i (suc n) cores =
    set_all vector flags (suc i) n (set_core i (set_nmi vector flags (cores i)) cores)

-- The loop that ends at the first core of the id.
unfoldable pub set_one : ℕ → ℕ → ℕ → ℕ → ℕ → (ℕ → Core) → ℕ → Core
set_one acpi vector flags i zero cores = cores
set_one acpi vector flags i (suc n) cores =
    let rest = set_one acpi vector flags (suc i) n cores in
    if (cores i).acpi_id == acpi then set_core i (set_nmi vector flags (cores i)) cores else rest

-- A case of the second switch.
abbrev pub assign_nmi : ℕ → ℕ → ℕ → Detection → Detection
assign_nmi acpi vector flags d =
    if acpi == 255
    then (record d { cores = set_all vector flags 0 d.detected d.cores })
    else (record d { cores = set_one acpi vector flags 0 d.detected d.cores })

-- The switch of the second loop.
unfoldable pub nmi_entry : Memory → ℕ → Detection → Detection
unfolding set_all set_one
nmi_entry mem a d =
    if mem a == 4
    then assign_nmi (mem (a + 2)) (mem (a + 5)) (read16 mem (a + 3)) d
    else if mem a == 10
    then assign_nmi (read32 mem (a + 4)) (mem (a + 8)) (read16 mem (a + 2)) d
    else d

-- Both loops: a switch at each of the entries from an offset on.
unfoldable pub each_entry :
    (Memory → ℕ → Detection → Detection) → ℕ → Memory → ℕ → ℕ → Detection → Outcome Detection
each_entry visit zero mem madt offset d = spin
each_entry visit (suc fuel) mem madt offset d = elim (ltb offset (read32 mem (madt + 4))) [
  | false ↦ done d
  | true ↦
      each_entry visit fuel mem madt (offset + mem (madt + offset + 1))
        (visit mem (madt + offset) d)
]

-- `madt_result`.
pub record MadtResult : Type 0 where
  pub core_count : ℕ
  pub lapic_base : ℕ

-- The returns.
abbrev pub counted : ℕ → Detection → MadtResult
counted max_core_count d = record {
  core_count = if ltb max_core_count d.detected then max_core_count else d.detected;
  lapic_base = d.lapic;
}

-- `parse_madt` from the table on: the result, and the storage of the cores.
unfoldable pub parse_entries : ℕ → Memory → ℕ → ℕ → (ℕ → Core) → Outcome (MadtResult × (ℕ → Core))
unfolding each_entry detect_entry nmi_entry
parse_entries fuel mem madt max_core_count cores =
    each_entry detect_entry fuel mem madt 44
      (record { cores = cores; detected = 0; lapic = read32 mem (madt + 36) })
    >>= λ d.
        each_entry nmi_entry fuel mem madt 44 d >>= λ e. done (counted max_core_count e, e.cores)

-- "APIC"
abbrev pub madt_signature : List ℕ
madt_signature = 65 ∷ 80 ∷ 73 ∷ 67 ∷ []

-- `parse_madt`.
unfoldable pub parse_madt : ℕ → Memory → Root → ℕ → (ℕ → Core) → Outcome (MadtResult × (ℕ → Core))
unfolding parse_entries find_table
parse_madt fuel mem root max_core_count cores = elim (find_table mem root madt_signature) [
  | none ↦ panic
  | some madt ↦ parse_entries fuel mem madt max_core_count cores
]
