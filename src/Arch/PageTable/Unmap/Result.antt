-- ===== src/Arch/PageTable/Unmap/Result.antt =====
-- Whole runs of `unmap` of kernel/arch/amd64/memory/vm.cpp.
use reaveros.Prelude.{
  ℕ, zero, suc, ◌+◌, ◌-◌, ◌*◌, ◌/◌, ◌%◌, ◌^◌, ◌≤◌, ◌<◌, ◌≡◌, refl, sym, ◌∙◌, subst, Bool,
  Bool-cases, some, [], arith, All, ==-false, ltb, inl, inr, if◌then◌else◌, length,
}
use reaveros.Prelude.Outcome.{done, ◌>>=◌, Yields, Yields-bind}
use reaveros.Arch.PageTable.{
  absent, table, Table, table_index, entry_end, set_entry, rounds, virt_to_phys,
}
use reaveros.Arch.PageTable.Steps.{entry_end-IsStep, Covers, Fuelled-start}
use reaveros.Arch.PageTable.Change.{
  IsChanged, IsChanged-empty, IsEntry, virt_at, table-IsEntry, virt-below,
}
use reaveros.Arch.PageTable.Sound.{page_end}
use reaveros.Arch.PageTable.Unmap.{
  Effects, Unmapped, release_page, num_places, no_effects, finished, vm_unmap, unmap,
}
use reaveros.Arch.PageTable.Unmap.Pages.{
  pages_of, frames, concat, trigger-HasPlace, seen-trigger, IsCounted, IsCounted-agree,
  IsCounted-empty, IsCounted-page,
}
use reaveros.Arch.PageTable.Unmap.Removal.{
  IsPaged, unmapped, IsRemoved, Ready, Ready-step, Ready-below, round, IsPaged-step,
}
use reaveros.Arch.PageTable.Unmap.Runs.{
  page_entry, table_entry, vm_unmap-end, vm_unmap-page, vm_unmap-table, small_here, page_end-zero,
  absent-IsEntry, IsPaged-below, walk-page,
}

vm_unmap_lem :
    (l fuel o v vend i : ℕ) (free : Bool) (t : Table) (s : Effects)
    → l < 4
    → Ready l o v vend i fuel
    → IsPaged l v vend t
    → Yields (IsRemoved l o v vend free t s) (vm_unmap l fuel i v vend free t s)
vm_unmap_lem l zero o v vend i free t s ll r pg = absurd (omega (arith, (r.fuelled).0))
vm_unmap_lem zero (suc fuel) o v vend i free t s ll r pg = elim (Bool-cases (ltb v vend)) [
  | inr n ↦
      subst (Yields (IsRemoved zero o v vend free t s))
        (sym (vm_unmap-end zero fuel i v vend free t s n))
        (
          IsChanged-empty zero o v vend unmapped t n,
          IsCounted-empty (virt_to_phys zero t) v vend free s (ground (arith, n)),
        )
  | inl y ↦
      let lt : v < vend = ground (arith, y) in
      let e = entry_end zero v vend in
      let (p, u, q) = page_entry v (t i) (small_here zero o v vend i fuel t lt r pg) in
      let size : v + 4096 ≡ e = page_end-zero v vend (r.low) (r.high) lt (r.top) in
      let frame : virt_to_phys zero t v ≡ some p =
        virt_at zero i t v (sym (r.index lt)) ∙ walk-page p u v q in
      subst (Yields (IsRemoved zero o v vend free t s))
        (sym (vm_unmap-page fuel i v vend p u free t s y q))
        (round zero o v vend i fuel free absent t s (release_page free p v s) _ ll lt r
          (absent-IsEntry v e (t i) (r.low) size)
          (subst (λ e. IsCounted (virt_to_phys zero t) v e free s (release_page free p v s)) size
            (IsCounted-page (virt_to_phys zero t) v p free s frame))
          (vm_unmap_lem zero fuel o e vend (suc i) free (set_entry i absent t)
            (release_page free p v s) ll (Ready-step zero o v vend i fuel ll lt r)
            (IsPaged-step zero o v vend i fuel absent t ll lt r pg)))
]
vm_unmap_lem (suc l) (suc fuel) o v vend i free t s ll r pg = elim (Bool-cases (ltb v vend)) [
  | inr n ↦
      subst (Yields (IsRemoved (suc l) o v vend free t s))
        (sym (vm_unmap-end (suc l) fuel i v vend free t s n))
        (
          IsChanged-empty (suc l) o v vend unmapped t n,
          IsCounted-empty (virt_to_phys (suc l) t) v vend free s (ground (arith, n)),
        )
  | inl y ↦
      let lt : v < vend = ground (arith, y) in
      let e = entry_end (suc l) v vend in
      let (u, b, q) = table_entry l v (t i) (small_here (suc l) o v vend i fuel t lt r pg) in
      let st = entry_end-IsStep (suc l) v vend ll lt (r.top) in
      subst (Yields (IsRemoved (suc l) o v vend free t s))
        (sym (vm_unmap-table l fuel i v vend u free b t s y q))
        (Yields-bind (IsRemoved l v v e free b s) (IsRemoved (suc l) o v vend free t s) _ _
          (vm_unmap_lem l rounds v v e (table_index l v) free b s (omega arith)
            (Ready-below l o v vend i fuel ll lt r)
            (IsPaged-below l o v vend i fuel u b t ll lt r q pg))
          (λ r' h.
            round (suc l) o v vend i fuel free (table u (r'.0)) t s (r'.1) _ ll lt r
              (subst (λ en. IsEntry (suc l) v e unmapped en (table u (r'.0))) (sym q)
                (table-IsEntry l v e unmapped u u b (r'.0) ll (h.0)))
              (IsCounted-agree (virt_to_phys l b) (virt_to_phys (suc l) t) v e free s (r'.1)
                (omega (arith, st.below)) (virt-below l v vend e i u b t ll st (r.index lt) q)
                (h.1))
              (vm_unmap_lem (suc l) fuel o e vend (suc i) free (set_entry i (table u (r'.0)) t)
                (r'.1) ll (Ready-step (suc l) o v vend i fuel ll lt r)
                (IsPaged-step (suc l) o v vend i fuel (table u (r'.0)) t ll lt r pg))))
]

unmap-run :
    (start end : ℕ) (free : Bool) (t : Table)
    → start % 4096 ≡ 0
    → start < end
    → end + 4095 < 2 ^ 64
    → unmap start end free t ≡ (
        vm_unmap 3 rounds (table_index 3 start) start (page_end end) free t no_effects >>= λ r.
        done (finished r))
unfolding unmap
unmap-run start end free t sa lt top =
    let size : (end + (2 ^ 64 - start)) % 2 ^ 64 ≡ end - start = omega arith in
    let first : start / 4096 * 4096 ≡ start = omega arith in
    let last : (start + (end - start) + 4095) % 2 ^ 64 / 4096 * 4096 ≡ page_end end = omega arith in
    rw (size, ==-false (end - start) 0 (λ q. omega arith), first, last) refl

-- The range is gone, and what was done with its pages and frames.
abbrev pub IsReleased : ℕ → ℕ → Bool → Table → Unmapped → Type 0
IsReleased start end free t u =
    IsChanged 3 start start end unmapped t u.table_after
    × (u.freed_frames ≡ (if free then frames (virt_to_phys 3 t) (pages_of start end) else []))
    × (concat u.invalidated ≡ pages_of start end)
    × All (λ b. length b ≤ num_places) u.invalidated

-- Unmapping a range of which every page is mapped, each by a page of 4096 bytes, succeeds: no address
-- of the range is translated any more, and all other addresses of the same half of the address space
-- are translated as before; the frames are given back, where that is asked for, and the pages are
-- invalidated, each once and in order, in batches of at most 32. The range starts at a page, lies in
-- one half, and ends at least 4095 bytes below 2^64, so that rounding its end up does not wrap.
pub unmap-IsReleased :
    (start end : ℕ) (free : Bool) (t : Table)
    → start % 4096 ≡ 0
    → start < end
    → end + 4095 < 2 ^ 64
    → start / 2 ^ 48 ≡ (end - 1) / 2 ^ 48
    → IsPaged 3 start (page_end end) t
    → Yields (IsReleased start (page_end end) free t) (unmap start end free t)
unmap-IsReleased start end free t sa lt top half pg =
    let cov : (x : ℕ) → start ≤ x → x < page_end end → Covers 3 start x = λ x a b. omega arith in
    let r : Ready 3 start start (page_end end) (table_index 3 start) 514 = record {
      low = sa;
      high = omega arith;
      top = omega arith;
      fuelled = Fuelled-start 3 start (page_end end) (omega arith) cov (omega arith);
      covers = cov;
      index = λ h. refl;
    } in
    subst (Yields (IsReleased start (page_end end) free t))
      (sym (unmap-run start end free t sa lt top))
      (Yields-bind (IsRemoved 3 start start (page_end end) free t no_effects) _ _ _
        (vm_unmap_lem 3 rounds start start (page_end end) (table_index 3 start) free t no_effects
          (omega arith) r pg)
        (λ r' h. (
          h.0,
          h.1.0,
          seen-trigger (r'.1.invalidator) ∙ h.1.1,
          (trigger-HasPlace (r'.1.invalidator) (h.1.2 (tt, omega arith))).0,
        )))
