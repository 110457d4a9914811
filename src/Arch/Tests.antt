-- ===== src/Arch/Tests.antt =====
-- Runs of the page tables of kernel/arch/amd64/memory/vm.cpp.
use reaveros.Prelude.{
  ℕ, zero, suc, ◌≤◌, ◌<◌, ◌≡◌, refl, true, false, Option, none, some, List, [], ◌∷◌, arith, inl,
  inr,
}
use reaveros.Prelude.Outcome.{Outcome, done, panic, ◌>>=◌, Yields}
use reaveros.Arch.PageTable.{
  Table, page, table, set_entry, empty_table, table_index, map_physical, virt_to_phys,
}
use reaveros.Arch.PageTable.Steps.{Meets}
use reaveros.Arch.PageTable.Mapping.{IsMapped}
use reaveros.Arch.PageTable.Unmap.{Unmapped, unmap}
use reaveros.Arch.PageTable.Unmap.Removal.{small_walk, IsPaged}
use reaveros.Arch.PageTable.Unmap.Result.{IsReleased, unmap-IsReleased}
use reaveros.Arch.PageTable.Sound.{map_physical-IsMapped, empty_table-IsUnmapped, page_end}

-- Two pages on both sides of the end of a large page.
abbrev first_address : ℕ
first_address = 2093056

abbrev last_address : ℕ
last_address = 2101248

-- A frame at the same offset in a large page, and one at another offset.
abbrev same_offset : ℕ
same_offset = 6287360

abbrev other_offset : ℕ
other_offset = 0

abbrev translate : ℕ → ℕ → Outcome (Option ℕ)
translate physical x = map_physical first_address last_address physical false empty_table >>= λ t.
    done (virt_to_phys 3 t x)

offsets_meet : (k : ℕ) → k ≤ 3 → Meets k first_address last_address same_offset
offsets_meet zero le = inr refl
offsets_meet (suc zero) le = inr refl
offsets_meet (suc (suc zero)) le = inl refl
offsets_meet (suc (suc (suc k))) le = inl refl

map_physical-IsMapped_example :
    Yields
      (IsMapped 3 first_address first_address (page_end last_address) same_offset empty_table)
      (map_physical first_address last_address same_offset false empty_table)
map_physical-IsMapped_example =
    map_physical-IsMapped first_address last_address same_offset false empty_table refl refl
      (omega arith) (omega arith) refl (omega arith) offsets_meet
      (empty_table-IsUnmapped 3 first_address (page_end last_address))

second_page_run : translate same_offset 2097157 ≡ done (some 6291456)
unfolding map_physical virt_to_phys reaveros.Arch.PageTable.vm_map reaveros.Arch.PageTable.entry_end
    reaveros.Arch.PageTable.next_phys
second_page_run = refl

-- The second page is not mapped to the second frame, 4096, but to the start of the next large page.
second_page_misplaced : translate other_offset 2097157 ≡ done (some 2097152)
unfolding map_physical virt_to_phys reaveros.Arch.PageTable.vm_map reaveros.Arch.PageTable.entry_end
    reaveros.Arch.PageTable.next_phys
second_page_misplaced = refl

-- The range 6144 to 10240 is on two pages, and the second one is left out.
unaligned_start_run :
    (map_physical 6144 10240 0 false empty_table >>= λ t. done (virt_to_phys 3 t 10000)) ≡ done none
unfolding map_physical virt_to_phys reaveros.Arch.PageTable.vm_map reaveros.Arch.PageTable.entry_end
    reaveros.Arch.PageTable.next_phys
unaligned_start_run = refl

-- One page of 4096 bytes under tables of every level.
abbrev one_page : Table
one_page =
    set_entry 0
      (table false (
        set_entry 0
          (table false
            (set_entry 0 (table false (set_entry 5 (page 8192 false) empty_table)) empty_table))
          empty_table))
      empty_table

one_page-IsPaged : IsPaged 3 20480 24576 one_page
unfolding small_walk
one_page-IsPaged x a b =
    let q : (l : ℕ) → l ≤ 2 → table_index (suc l) x ≡ 0 = indices x a b in
    rw (q 2 (omega arith), small_walk)
      (rw (q 1 (omega arith), small_walk)
        (rw (q 0 (omega arith), small_walk) (rw (low x a b, small_walk) (λ e. ground (arith, e)))))
  where
    indices : (x : ℕ) → 20480 ≤ x → x < 24576 → (l : ℕ) → l ≤ 2 → table_index (suc l) x ≡ 0
    indices x a b zero le = omega arith
    indices x a b (suc zero) le = omega arith
    indices x a b (suc (suc zero)) le = omega arith
    indices x a b (suc (suc (suc l))) le = absurd (omega arith)

    low : (x : ℕ) → 20480 ≤ x → x < 24576 → table_index 0 x ≡ 5
    low x a b = omega arith

unmap-IsReleased_example :
    Yields (IsReleased 20480 (page_end 24000) true one_page) (unmap 20480 24000 true one_page)
unmap-IsReleased_example =
    unmap-IsReleased 20480 24000 true one_page refl (omega arith) (omega arith) refl
      one_page-IsPaged

abbrev traces : Unmapped → List ℕ × List (List ℕ) × Option ℕ
traces u = (u.freed_frames, u.invalidated, virt_to_phys 3 u.table_after 2097157)

-- A mapping of two pages that is taken back.
map_unmap_run :
    (map_physical first_address last_address same_offset false empty_table >>= λ t.
    unmap first_address last_address true t >>= λ u. done (traces u))
    ≡ done (same_offset ∷ 6291456 ∷ [], (first_address ∷ 2097152 ∷ []) ∷ [], none)
unfolding map_physical virt_to_phys unmap reaveros.Arch.PageTable.vm_map
    reaveros.Arch.PageTable.entry_end reaveros.Arch.PageTable.next_phys
    reaveros.Arch.PageTable.Unmap.vm_unmap reaveros.Arch.PageTable.Unmap.invalidate
map_unmap_run = refl

-- An address of a range that is not mapped.
unmap_nothing_run : unmap 4096 8192 false empty_table ≡ panic
unfolding unmap reaveros.Arch.PageTable.Unmap.vm_unmap
unmap_nothing_run = refl
