-- ===== src/Arch/PageTable/Unmap/Removal.antt =====
-- The run of `vm_unmap` of kernel/arch/amd64/memory/vm.cpp over all levels of the page tables.
use reaveros.Prelude.{
  ℕ, zero, suc, ◌%◌, ◌^◌, ◌≤◌, ◌<◌, ◌≡◌, ◌≢◌, refl, sym, ap, ◌∙◌, Bool, Option, none, some, arith,
  ==-false,
}
use reaveros.Prelude.Outcome.{Outcome, Yields, Yields-imp}
use reaveros.Arch.PageTable.{
  Entry, absent, page, table, Table, table_index, entry_end, set_entry, virt_to_phys,
}
use reaveros.Arch.PageTable.Steps.{
  entry_end-IsStep, Covers, Covers-below, index-entry, IsStep-aligned, later_entry, Fuelled,
  Fuelled-step, Fuelled-start, index-step,
}
use reaveros.Arch.PageTable.Change.{IsChanged, IsEntry, combine, virt-set_entry_other}
use reaveros.Arch.PageTable.Unmap.{Effects}
use reaveros.Arch.PageTable.Unmap.Pages.{IsCounted, IsCounted-trans}

-- What an address is translated to by tables down to the lowest level.
unfoldable pub small_walk : ℕ → Entry → ℕ → Option ℕ
small_walk l absent virt = none
small_walk zero (page p u) virt = some p
small_walk zero (table u t) virt = none
small_walk (suc l) (page p u) virt = none
small_walk (suc l) (table u t) virt = small_walk l (t (table_index l virt)) virt

-- Every page of the range is mapped, and none of them by a larger page.
abbrev pub IsPaged : ℕ → ℕ → ℕ → Table → Type 0
IsPaged l v vend t = (x : ℕ) → v ≤ x → x < vend → small_walk l (t (table_index l x)) x ≢ none

abbrev pub unmapped : ℕ → Option ℕ
unmapped x = none

-- The run over a range removes its translation.
abbrev pub IsRemoved : ℕ → ℕ → ℕ → ℕ → Bool → Table → Effects → Table × Effects → Type 0
IsRemoved l o v vend free t s r =
    IsChanged l o v vend unmapped t (r.0) × IsCounted (virt_to_phys l t) v vend free s (r.1)

-- What a run from an entry on relies on.
pub record Ready (l o v vend i fuel : ℕ) : Type 0 where
  pub low : v % 4096 ≡ 0
  pub high : vend % 4096 ≡ 0
  pub top : vend < 2 ^ 64
  pub fuelled : Fuelled l v vend fuel
  pub covers : (x : ℕ) → v ≤ x → x < vend → Covers l o x
  pub index : v < vend → i ≡ table_index l v

pub Ready-step :
    (l o v vend i fuel : ℕ)
    → l < 4
    → v < vend
    → Ready l o v vend i (suc fuel)
    → Ready l o (entry_end l v vend) vend (suc i) fuel
Ready-step l o v vend i fuel ll lt r =
    let s = entry_end-IsStep l v vend ll lt (r.top) in
    let e = entry_end l v vend in
    record {
      low = IsStep-aligned l v vend e s (r.high);
      high = r.high;
      top = r.top;
      fuelled = Fuelled-step l v vend e fuel ll s lt (r.fuelled);
      covers = λ x a b. r.covers x (omega (arith, s.below)) b;
      index = λ h.
          ap suc (r.index lt)
          ∙ sym (
              index-step l v vend e ll s
                (r.covers e (omega (arith, s.below)) h ∙ sym (r.covers v (omega arith) lt)) h);
    }

pub Ready-below :
    (l o v vend i fuel : ℕ)
    → suc l < 4
    → v < vend
    → Ready (suc l) o v vend i (suc fuel)
    → Ready l v v (entry_end (suc l) v vend) (table_index l v) 514
Ready-below l o v vend i fuel ll lt r =
    let s = entry_end-IsStep (suc l) v vend ll lt (r.top) in
    let e = entry_end (suc l) v vend in
    let cov : (x : ℕ) → v ≤ x → x < e → Covers l v x =
      λ x a b. Covers-below l v x ll (s.same x a b) in
    record {
      low = r.low;
      high = IsStep-aligned (suc l) v vend e s (r.high);
      top = omega (arith, s.within, r.top);
      fuelled = Fuelled-start l v e (omega arith) cov (s.below);
      covers = cov;
      index = λ h. refl;
    }

-- The addresses behind the step.
later_index :
    (l o v vend i fuel x : ℕ)
    → l < 4
    → v < vend
    → Ready l o v vend i (suc fuel)
    → entry_end l v vend ≤ x
    → x < vend
    → i ≢ table_index l x
later_index l o v vend i fuel x ll lt r a b q =
    let s = entry_end-IsStep l v vend ll lt (r.top) in
    later_entry l v vend (entry_end l v vend) x s (omega arith) a (
      index-entry l v x (r.covers x (omega (arith, s.below)) b ∙ sym (r.covers v (omega arith) lt))
        (sym q ∙ r.index lt))

-- The entry of the step, and the run over the entries behind it.
pub round :
    (l o v vend i fuel : ℕ) (free : Bool) (en : Entry) (t : Table) (s s1 : Effects)
    (m : Outcome (Table × Effects))
    → l < 4
    → v < vend
    → Ready l o v vend i (suc fuel)
    → IsEntry l v (entry_end l v vend) unmapped (t i) en
    → IsCounted (virt_to_phys l t) v (entry_end l v vend) free s s1
    → Yields (IsRemoved l o (entry_end l v vend) vend free (set_entry i en t) s1) m
    → Yields (IsRemoved l o v vend free t s) m
round l o v vend i fuel free en t s s1 m ll lt r first counted =
    let st = entry_end-IsStep l v vend ll lt (r.top) in
    let e = entry_end l v vend in
    Yields-imp (IsRemoved l o e vend free (set_entry i en t) s1) (IsRemoved l o v vend free t s) m
      (λ r' rest. (
        combine l o v vend e i unmapped unmapped en t (r'.0) st (λ x a b. refl)
            (r.covers v (omega arith) lt) (r.index lt) first (rest.0),
        IsCounted-trans (virt_to_phys l t) (virt_to_phys l (set_entry i en t)) v e vend free s s1
            (r'.1) (omega (arith, st.below)) (st.within) (r.low)
            (IsStep-aligned l v vend e st (r.high))
            (λ x a b.
              sym (virt-set_entry_other l i en t x (later_index l o v vend i fuel x ll lt r a b)))
            counted (rest.1),
      ))

pub IsPaged-step :
    (l o v vend i fuel : ℕ) (en : Entry) (t : Table)
    → l < 4
    → v < vend
    → Ready l o v vend i (suc fuel)
    → IsPaged l v vend t
    → IsPaged l (entry_end l v vend) vend (set_entry i en t)
IsPaged-step l o v vend i fuel en t ll lt r pg x a b =
    let st = entry_end-IsStep l v vend ll lt (r.top) in
    rw (==-false i (table_index l x) (later_index l o v vend i fuel x ll lt r a b))
      (pg x (omega (arith, st.below)) b)
