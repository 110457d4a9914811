-- ===== src/Arch/PageTable.antt =====
-- The page tables of kernel/arch/amd64/memory/vm.cpp. A table of the level `I` of the source is one of
-- the level `I - 1` here. The locks of the entries are left out, and
-- so are the frames that new tables take by `pmm::pop(0)`: these are taken to be had, and a new table is
-- one without entries. A `while` loop has `rounds` rounds.
pub mod Steps
pub mod Change
pub mod Mapping
pub mod Ready
pub mod Rounds
pub mod Sound
pub mod Unmap
use reaveros.Prelude.{
  ℕ, zero, suc, ◌+◌, ◌-◌, ◌*◌, ◌/◌, ◌%◌, ◌^◌, Bool, true, false, Option, none, some, ◌==◌, ltb,
  ◌&&◌, ◌||◌, not, if◌then◌else◌,
}
use reaveros.Prelude.Outcome.{Outcome, done, panic, fault, spin, ◌>>=◌}

-- `pmle` with the table that it points to: an entry that is not present, one that maps a page (of any
-- size) to a frame, and one with a table below it; the bit `user` is kept.
pub data Entry : Type 0 where
  absent : Entry
  page : ℕ → Bool → Entry
  table : Bool → (ℕ → Entry) → Entry

-- `pmlt::entries`.
abbrev pub Table : Type 0
Table = ℕ → Entry

abbrev pub empty_table : Table
empty_table i = absent

-- 1ull << (I * 9 + 3).
abbrev pub entry_size : ℕ → ℕ
entry_size zero = 4096
entry_size (suc zero) = 2097152
entry_size (suc (suc zero)) = 1073741824
entry_size (suc (suc (suc l))) = 549755813888

-- (virt >> (I * 9 + 3)) & 511.
abbrev pub table_index : ℕ → ℕ → ℕ
table_index l virt = virt / entry_size l % 512

-- `& ~(entry_size - 1)`, of a sum of two words.
abbrev pub round_down : ℕ → ℕ → ℕ
round_down l n = n % 2 ^ 64 / entry_size l * entry_size l

-- `entry_virt_end`, with the protection against the wrap.
unfoldable pub entry_end : ℕ → ℕ → ℕ → ℕ
entry_end l virt_start virt_end =
    let end = round_down l (virt_start + entry_size l) in
    if not (end == 0) && ltb (end - 1) virt_end then end else virt_end

-- phys = (phys + entry_size) & ~(entry_size - 1).
unfoldable pub next_phys : ℕ → ℕ → ℕ
next_phys l phys = round_down l (phys + entry_size l)

-- The field `address` has 40 bits.
abbrev pub frame_of : ℕ → ℕ
frame_of phys = phys / 4096 % 2 ^ 40 * 4096

abbrev pub set_entry : ℕ → Entry → Table → Table
set_entry i e t j = if i == j then e else t j

-- The rounds of a loop over one table.
abbrev pub rounds : ℕ
rounds = 514

-- `vm_map<I, 1>` from the index of an entry on. Where there is a larger page above the lowest level,
-- its frame is taken for a table.
unfoldable pub vm_map : ℕ → ℕ → ℕ → ℕ → ℕ → ℕ → Bool → Table → Outcome Table
vm_map l zero i virt_start virt_end phys user t = spin
vm_map zero (suc fuel) i virt_start virt_end phys user t = elim (ltb virt_start virt_end) [
  | false ↦ done t
  | true ↦ elim (t i) [
    | page p u ↦ panic
    | table u s ↦ panic
    | absent ↦
        vm_map zero fuel (suc i) (entry_end zero virt_start virt_end) virt_end (next_phys zero phys)
          user (set_entry i (page (frame_of phys) user) t)
  ]
]
vm_map (suc l) (suc fuel) i virt_start virt_end phys user t = elim (ltb virt_start virt_end) [
  | false ↦ done t
  | true ↦ elim (t i) [
    | page p u ↦ fault
    | absent ↦
        vm_map l rounds (table_index l virt_start) virt_start
          (entry_end (suc l) virt_start virt_end) phys user empty_table
        >>= λ s.
            vm_map (suc l) fuel (suc i) (entry_end (suc l) virt_start virt_end) virt_end
              (next_phys (suc l) phys) user (set_entry i (table user s) t)
    | table u s ↦
        vm_map l rounds (table_index l virt_start) virt_start
          (entry_end (suc l) virt_start virt_end) phys user s
        >>= λ s'.
            vm_map (suc l) fuel (suc i) (entry_end (suc l) virt_start virt_end) virt_end
              (next_phys (suc l) phys) user (set_entry i (table (u || user) s') t)
  ]
]

-- `vm_virt_to_phys`, from an entry of the level on; none is the panic of an unmapped address. (An
-- entry of the lowest level has no table below it.)
unfoldable pub walk : ℕ → Entry → ℕ → Option ℕ
walk l absent virt = none
walk l (page p u) virt = some p
walk zero (table u t) virt = some 0
walk (suc l) (table u t) virt = walk l (t (table_index l virt)) virt

unfoldable pub virt_to_phys : ℕ → Table → ℕ → Option ℕ
unfolding walk
virt_to_phys l t virt = walk l (t (table_index l virt)) virt

-- `map_physical` with the table of the highest level; the words wrap at 2^64.
unfoldable pub map_physical : ℕ → ℕ → ℕ → Bool → Table → Outcome Table
map_physical start end physical user t =
    let size = (end + (2 ^ 64 - start)) % 2 ^ 64 in
    let virt_start = start / 4096 * 4096 in
    if size == 0
    then done t
    else vm_map 3 rounds (table_index 3 virt_start) virt_start
        ((virt_start + size + 4095) % 2 ^ 64 / 4096 * 4096) (physical / 4096 * 4096) user t
