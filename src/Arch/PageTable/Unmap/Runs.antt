-- ===== src/Arch/PageTable/Unmap/Runs.antt =====
-- The rounds of `unmap` of kernel/arch/amd64/memory/vm.cpp.
use reaveros.Prelude.{
  ℕ, zero, suc, ◌+◌, ◌%◌, ◌^◌, ◌<◌, ◌≡◌, ◌≢◌, refl, sym, ap, ◌∙◌, subst, Bool, true, false, none,
  some, arith, ltb,
}
use reaveros.Prelude.Outcome.{done, ◌>>=◌}
use reaveros.Arch.PageTable.{
  Entry, absent, page, table, Table, table_index, entry_end, set_entry, rounds, walk,
}
use reaveros.Arch.PageTable.Steps.{entry_end-IsStep}
use reaveros.Arch.PageTable.Change.{IsEntry, changed_in}
use reaveros.Arch.PageTable.Unmap.{Effects, release_page, vm_unmap}
use reaveros.Arch.PageTable.Unmap.Removal.{small_walk, IsPaged, unmapped, Ready}

-- The entries of addresses that are mapped.
pub page_entry :
    (x : ℕ) (en : Entry) → small_walk zero en x ≢ none → (p : ℕ) × (u : Bool) × (en ≡ page p u)
unfolding small_walk
page_entry x absent h = absurd (h refl)
page_entry x (page p u) h = (p, u, refl)
page_entry x (table u t) h = absurd (h refl)

pub table_entry :
    (l x : ℕ) (en : Entry)
    → small_walk (suc l) en x ≢ none
    → (u : Bool) × (b : Table) × (en ≡ table u b)
unfolding small_walk
table_entry l x absent h = absurd (h refl)
table_entry l x (page p u) h = absurd (h refl)
table_entry l x (table u t) h = (u, t, refl)

-- The rounds of the loop.
pub vm_unmap-end :
    (l fuel i v vend : ℕ) (free : Bool) (t : Table) (s : Effects)
    → ltb v vend ≡ false
    → vm_unmap l (suc fuel) i v vend free t s ≡ done (t, s)
unfolding vm_unmap
vm_unmap-end zero fuel i v vend free t s n = rw (n, vm_unmap) refl
vm_unmap-end (suc l) fuel i v vend free t s n = rw (n, vm_unmap) refl

pub vm_unmap-page :
    (fuel i v vend p : ℕ) (u free : Bool) (t : Table) (s : Effects)
    → ltb v vend ≡ true
    → t i ≡ page p u
    → vm_unmap zero (suc fuel) i v vend free t s
      ≡ vm_unmap zero fuel
          (suc i)
          (entry_end zero v vend)
          vend
          free
          (set_entry i absent t)
          (release_page free p v s)
unfolding vm_unmap
vm_unmap-page fuel i v vend p u free t s y q = rw (y, q, vm_unmap) refl

pub vm_unmap-table :
    (l fuel i v vend : ℕ) (u free : Bool) (b t : Table) (s : Effects)
    → ltb v vend ≡ true
    → t i ≡ table u b
    → vm_unmap (suc l) (suc fuel) i v vend free t s ≡ (
        vm_unmap l rounds (table_index l v) v (entry_end (suc l) v vend) free b s >>= λ r.
        vm_unmap
          (suc l)
          fuel
          (suc i)
          (entry_end (suc l) v vend)
          vend
          free
          (set_entry i (table u (r.0)) t)
          (r.1))
unfolding vm_unmap
vm_unmap-table l fuel i v vend u free b t s y q = rw (y, q, vm_unmap) refl

pub small_here :
    (l o v vend i fuel : ℕ) (t : Table)
    → v < vend
    → Ready l o v vend i (suc fuel)
    → IsPaged l v vend t
    → small_walk l (t i) v ≢ none
small_here l o v vend i fuel t lt r pg =
    subst (λ j. small_walk l (t j) v ≢ none) (sym (r.index lt)) (pg v (omega arith) lt)

-- One page.
pub page_end-zero :
    (v vend : ℕ)
    → v % 4096 ≡ 0
    → vend % 4096 ≡ 0
    → v < vend
    → vend < 2 ^ 64
    → v + 4096 ≡ entry_end zero v vend
page_end-zero v vend a b lt top =
    let s = entry_end-IsStep zero v vend (omega arith) lt top in
    ground (arith, s.below, s.within, s.start, s.same (v + 4096), s.next)

pub absent-IsEntry :
    (v e : ℕ) (old : Entry) → v % 4096 ≡ 0 → v + 4096 ≡ e → IsEntry zero v e unmapped old absent
unfolding walk
absent-IsEntry v e old z q x h =
    sym (changed_in v e unmapped x (walk zero old x) (omega arith) (omega arith))

-- Tables below an entry stay paged.
pub IsPaged-below :
    (l o v vend i fuel : ℕ) (u : Bool) (b t : Table)
    → suc l < 4
    → v < vend
    → Ready (suc l) o v vend i (suc fuel)
    → t i ≡ table u b
    → IsPaged (suc l) v vend t
    → IsPaged l v (entry_end (suc l) v vend) b
unfolding small_walk
IsPaged-below l o v vend i fuel u b t ll lt r q pg x a c =
    let st = entry_end-IsStep (suc l) v vend ll lt (r.top) in
    let qi : i ≡ table_index (suc l) x = r.index lt ∙ sym (ap (λ a. a % 512) (st.same x a c)) in
    subst (λ en. small_walk (suc l) en x ≢ none) (ap t (sym qi) ∙ q)
      (pg x a (omega (arith, st.within)))

pub walk-page : (p : ℕ) (u : Bool) (x : ℕ) {en : Entry} → en ≡ page p u → walk zero en x ≡ some p
unfolding walk
walk-page p u x q = ap (λ en. walk zero en x) q
