-- ===== src/Memory/Vas/Tests.antt =====
-- Runs of kernel/memory/vmo.cpp and vas.cpp.
use reaveros.Prelude.{
  ℕ, zero, suc, ◌-◌, ◌/◌, ◌^◌, ◌≤◌, ◌<◌, ◌≡◌, ◌≢◌, refl, inl, inr, true, false, none, List, [], ◌∷◌,
  arith, All, ◌==◌, if◌then◌else◌,
}
use reaveros.Prelude.Int.{pos, negsuc}
use reaveros.Prelude.Outcome.{Outcome, done, panic, fault, spin, ◌>>=◌, Yields}
use reaveros.Util.AvlTree.{leaf, node}
use reaveros.Util.AvlTree.Elements.{elements}
use reaveros.Arch.PageTable.{Table, page, table, set_entry, empty_table, table_index, virt_to_phys}
use reaveros.Arch.PageTable.Unmap.Removal.{small_walk, IsPaged}
use reaveros.Memory.Pmm.{StackInfo, State}
use reaveros.Memory.Vmo.{create_sparse_vmo, commit_all}
use reaveros.Memory.Vmo.Commit.{commit_all-commit_all, create_sparse_vmo-length}
use reaveros.Memory.Vas.{Flags, VmoMapping, Vas, map_vmo, new_tables, lock_address_range}
use reaveros.Memory.Vas.Ranges.{IsApart, Disjoint}
use reaveros.Memory.Vas.Mapped.{map_vmo_occupied}
use reaveros.Memory.Vas.Release.{unmap_mapping, unmap_hides}

-- Three small frames are free.
abbrev small_frames : ℕ → StackInfo
small_frames j =
    if j == 0
    then (record { locked = false; stack = 20480 ∷ 28672 ∷ 36864 ∷ []; num_frames = 3 })
    else (record { locked = false; stack = []; num_frames = 0 })

abbrev three_frames : State
three_frames = record { infos = small_frames; free_frames = λ j. 3; used_frames = λ j. 0 }

abbrev state_after : Outcome (List ℕ × State) → State
state_after (done r) = r.1
state_after panic = three_frames
state_after fault = three_frames
state_after spin = three_frames

commit_all_twice :
    (commit_all 2 (create_sparse_vmo 4097 0) three_frames >>= λ (v, t). commit_all 2 v t)
    ≡ commit_all 2 (create_sparse_vmo 4097 0) three_frames
commit_all_twice = commit_all-commit_all 2 0 4097 three_frames (omega arith) (omega arith)

-- The length wraps.
create_sparse_vmo-length_example : (create_sparse_vmo (2 ^ 64 - 1) 0).length ≡ 0
create_sparse_vmo-length_example = create_sparse_vmo-length 0 (2 ^ 64 - 1) (omega arith)

-- On both sides of the end of a large page.
abbrev base_address : ℕ
base_address = 2093056

abbrev two_pages : List ℕ
two_pages = 20480 ∷ 28672 ∷ []

abbrev user_flags : Flags
user_flags = record { user = true; read_only = false }

abbrev one_mapping : VmoMapping
one_mapping = record { start = 8192; end = 16384; object = 9; mapping_flags = user_flags }

abbrev mapped_once : Vas
mapped_once = record {
  table = empty_table;
  was_claimed_for_process = true;
  mappings = record { root = node leaf one_mapping (pos 0) leaf; size = 1 };
  vdso_mapping = none;
}

abbrev mapped_once-Disjoint : Disjoint mapped_once.mappings
mapped_once-Disjoint = record {
  balanced = (tt, tt, (refl, omega arith, omega arith));
  sorted = (tt, tt);
  ranges = (omega arith, tt);
}

overlapping : All (IsApart 4096 12288) (elements mapped_once.mappings.root) → ⊥
overlapping (inl h, t) = omega (arith, h)
overlapping (inr h, t) = omega (arith, h)

map_vmo_occupied_example :
    map_vmo none 5 (create_sparse_vmo 8192 0) 4096 user_flags mapped_once ≡ panic
map_vmo_occupied_example =
    map_vmo_occupied none 5 (create_sparse_vmo 8192 0) 4096 user_flags mapped_once
      mapped_once-Disjoint overlapping

-- Two mappings, of which the first hangs below the second.
abbrev second_mapping : VmoMapping
second_mapping = record { start = 20480; end = 24576; object = 9; mapping_flags = user_flags }

-- The pages of both mappings under tables of every level.
abbrev small_pages : Table
small_pages =
    set_entry 5 (page 28672 true)
      (set_entry 3 (page 36864 true) (set_entry 2 (page 32768 true) empty_table))

abbrev three_pages : Table
three_pages =
    set_entry 0
      (table true
        (set_entry 0 (table true (set_entry 0 (table true small_pages) empty_table)) empty_table))
      empty_table

-- The tables of the three lower levels are new ones.
new_tables_run : new_tables empty_table three_pages ≡ 3
unfolding reaveros.Memory.Vas.count_tables reaveros.Memory.Vas.sum_entries
new_tables_run = refl

three_pages-IsPaged : IsPaged 3 20480 24576 three_pages
unfolding small_walk
three_pages-IsPaged x a b =
    let q : (l : ℕ) → l ≤ 2 → table_index (suc l) x ≡ 0 = indices x a b in
    rw (q 2 (omega arith), small_walk)
      (rw (q 1 (omega arith), small_walk)
        (rw (q 0 (omega arith), small_walk) (rw (low x a b, small_walk) (λ e. ground (arith, e)))))
  where
    indices : (x : ℕ) → 20480 ≤ x → x < 24576 → (l : ℕ) → l ≤ 2 → table_index (suc l) x ≡ 0
    indices x a b zero le = omega arith
    indices x a b (suc zero) le = omega arith
    indices x a b (suc (suc zero)) le = omega arith
    indices x a b (suc (suc (suc l))) le = absurd (omega arith)

    low : (x : ℕ) → 20480 ≤ x → x < 24576 → table_index 0 x ≡ 5
    low x a b = omega arith

abbrev mapped_twice : Vas
mapped_twice = record {
  table = three_pages;
  was_claimed_for_process = true;
  mappings = record {
    root = node (node leaf one_mapping (pos 0) leaf) second_mapping (negsuc 0) leaf;
    size = 2;
  };
  vdso_mapping = none;
}

abbrev mapped_twice-Disjoint : Disjoint mapped_twice.mappings
mapped_twice-Disjoint = record {
  balanced = ((tt, tt, (refl, omega arith, omega arith)), tt, (refl, omega arith, omega arith));
  sorted = ((refl, tt), (tt, tt));
  ranges = (omega arith, (omega arith, tt));
}

unmap_hides_example :
    (lock_address_range 8192 16384 false mapped_twice ≢ none)
    × Yields
        (λ w.
          (lock_address_range 8192 16384 false w ≡ none)
          × ((x : ℕ)
              → x < 16384
              → x / 2 ^ 48 ≡ 20480 / 2 ^ 48
              → virt_to_phys 3 w.table x ≡ virt_to_phys 3 three_pages x))
        (unmap_mapping second_mapping mapped_twice)
unmap_hides_example =
    unmap_hides one_mapping second_mapping (node leaf one_mapping (pos 0) leaf) leaf (negsuc 0) []
      [] mapped_twice mapped_twice-Disjoint refl refl refl (omega arith) refl three_pages-IsPaged
