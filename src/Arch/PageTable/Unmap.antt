-- ===== src/Arch/PageTable/Unmap.antt =====
-- `unmap` of kernel/arch/amd64/memory/vm.cpp, with the frames that it hands to `pmm::push` and the
-- pages whose translations it has every core forget, both in the order in which it does so.
pub mod Pages
pub mod Removal
pub mod Runs
pub mod Result
use reaveros.Prelude.{
  ℕ, zero, suc, ◌+◌, ◌-◌, ◌*◌, ◌/◌, ◌%◌, ◌^◌, Bool, true, false, List, [], ◌∷◌, ◌++◌, ◌==◌, ltb,
  if◌then◌else◌, length,
}
use reaveros.Prelude.Outcome.{Outcome, done, panic, fault, spin, ◌>>=◌}
use reaveros.Arch.PageTable.{
  Entry, absent, page, table, Table, table_index, entry_end, set_entry, rounds,
}

-- `tlb_invalidator`: the pages that it collects, and the batches that it has sent.
pub record TlbInvalidator : Type 0 where
  pub pages : List ℕ
  pub batches : List (List ℕ)

-- `_pages` has 32 places.
abbrev pub num_places : ℕ
num_places = 32

abbrev pub trigger : TlbInvalidator → TlbInvalidator
trigger v = record { pages = []; batches = v.batches ++ (v.pages ∷ []) }

unfoldable pub invalidate : ℕ → TlbInvalidator → TlbInvalidator
invalidate virt v =
    let added = record v { pages = v.pages ++ (virt ∷ []) } in
    if length (added.pages) == num_places then trigger added else added

-- What a run has done besides the page tables.
pub record Effects : Type 0 where
  pub invalidator : TlbInvalidator
  pub freed : List ℕ

-- The last two statements of an unmapping of one page.
abbrev pub release_page : Bool → ℕ → ℕ → Effects → Effects
release_page free_physical frame virt s = record {
  invalidator = invalidate virt s.invalidator;
  freed = if free_physical then s.freed ++ (frame ∷ []) else s.freed;
}

-- `vm_unmap` from the index of an entry on.
unfoldable pub vm_unmap : ℕ → ℕ → ℕ → ℕ → ℕ → Bool → Table → Effects → Outcome (Table × Effects)
vm_unmap l zero i virt_start virt_end free t s = spin
vm_unmap zero (suc fuel) i virt_start virt_end free t s = elim (ltb virt_start virt_end) [
  | false ↦ done (t, s)
  | true ↦ elim (t i) [
    | absent ↦ panic
    | page p u ↦
        vm_unmap zero fuel (suc i) (entry_end zero virt_start virt_end) virt_end free
          (set_entry i absent t) (release_page free p virt_start s)
    | table u b ↦ fault
  ]
]
vm_unmap (suc l) (suc fuel) i virt_start virt_end free t s = elim (ltb virt_start virt_end) [
  | false ↦ done (t, s)
  | true ↦ elim (t i) [
    | absent ↦ panic
    | page p u ↦ panic
    | table u b ↦
        vm_unmap l rounds (table_index l virt_start) virt_start
          (entry_end (suc l) virt_start virt_end) free b s
        >>= λ r.
            vm_unmap (suc l) fuel (suc i) (entry_end (suc l) virt_start virt_end) virt_end free
              (set_entry i (table u r.0) t) r.1
  ]
]

-- `unmap`: the batches that are sent, the last one by the destructor of the invalidator.
pub record Unmapped : Type 0 where
  pub table_after : Table
  pub freed_frames : List ℕ
  pub invalidated : List (List ℕ)

abbrev pub no_effects : Effects
no_effects = record { invalidator = record { pages = []; batches = [] }; freed = [] }

abbrev pub finished : Table × Effects → Unmapped
finished r = record {
  table_after = r.0;
  freed_frames = r.1.freed;
  invalidated = (trigger (r.1.invalidator)).batches;
}

unfoldable pub unmap : ℕ → ℕ → Bool → Table → Outcome Unmapped
unmap start end free_physical t =
    let size = (end + (2 ^ 64 - start)) % 2 ^ 64 in
    let virt_start = start / 4096 * 4096 in
    if size == 0
    then done (record { table_after = t; freed_frames = []; invalidated = [] })
    else vm_unmap 3 rounds (table_index 3 virt_start) virt_start
        ((virt_start + size + 4095) % 2 ^ 64 / 4096 * 4096) free_physical t no_effects
      >>= λ r. done (finished r)
