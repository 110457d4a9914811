-- ===== src/Arch/PageTable/Rounds.antt =====
-- The rounds of the loop of `vm_map` in kernel/arch/amd64/memory/vm.cpp.
use reaveros.Prelude.{
  ℕ, zero, suc, ◌+◌, ◌-◌, ◌<◌, ◌≡◌, ◌⊎◌, refl, sym, ap, ◌∙◌, Bool, true, false, none, some, arith,
  ltb, ◌||◌, inl, inr,
}
use reaveros.Prelude.Outcome.{Outcome, done, ◌>>=◌, Yields, Yields-imp}
use reaveros.Arch.PageTable.{
  Entry, absent, page, table, Table, empty_table, table_index, entry_end, next_phys, frame_of,
  set_entry, rounds, vm_map, walk, virt_to_phys,
}
use reaveros.Arch.PageTable.Steps.{entry_end-IsStep, Covers-below, IsStep-aligned}
use reaveros.Arch.PageTable.Change.{IsEntry, changed_in, combine, virt_at}
use reaveros.Arch.PageTable.Mapping.{mapped_to, mapped_to-agree, IsMapped, IsUnmapped}
use reaveros.Arch.PageTable.Ready.{Ready, rest_phys}

-- A page of the lowest level.
pub page-IsEntry :
    (o v vend phys i fuel : ℕ) (user : Bool) (old : Entry)
    → v < vend
    → Ready zero o v vend phys i (suc fuel)
    → IsEntry zero v (entry_end zero v vend) (mapped_to v phys) old (page (frame_of phys) user)
unfolding walk
page-IsEntry o v vend phys i fuel user old lt r x q =
    let s = entry_end-IsStep zero v vend (omega arith) lt (r.top) in
    let f = r.fits lt in
    ap some (omega (arith, f.room, f.aligned, r.low))
    ∙ sym (
        changed_in v (entry_end zero v vend) (mapped_to v phys) x (walk zero old x)
          (omega (arith, r.low)) (ground (arith, s.below, s.start, r.low, r.high)))

pub table-IsEntry-absent :
    (l v e phys : ℕ) (u' : Bool) (s' : Table)
    → suc l < 4
    → IsMapped l v v e phys empty_table s'
    → IsEntry (suc l) v e (mapped_to v phys) absent (table u' s')
unfolding walk virt_to_phys
table-IsEntry-absent l v e phys u' s' ll m x q = m x (Covers-below l v x ll q)

-- The entry of an address that is not mapped.
pub walk-none :
    (l o v vend phys i fuel : ℕ) (t : Table)
    → v < vend
    → Ready l o v vend phys i (suc fuel)
    → IsUnmapped l v vend t
    → walk l (t i) v ≡ none
walk-none l o v vend phys i fuel t lt r un =
    sym (virt_at l i t v (sym (r.index lt))) ∙ un v (omega arith) lt

pub Entry-cases :
    (l x : ℕ) (en : Entry)
    → walk l en x ≡ none
    → (en ≡ absent) ⊎ ((u : Bool) × (s : Table) × (en ≡ table u s))
unfolding walk
Entry-cases l x absent h = inl refl
Entry-cases l x (page p u) h = absurd (ground (arith, h))
Entry-cases l x (table u s) h = inr (u, s, refl)

pub Entry-absent : (x : ℕ) (en : Entry) → walk zero en x ≡ none → en ≡ absent
unfolding walk
Entry-absent x absent h = refl
Entry-absent x (page p u) h = absurd (ground (arith, h))
Entry-absent x (table u s) h = absurd (ground (arith, h))

-- The rounds of the loop.
pub vm_map-end :
    (l fuel i v vend phys : ℕ) (user : Bool) (t : Table)
    → ltb v vend ≡ false
    → vm_map l (suc fuel) i v vend phys user t ≡ done t
unfolding vm_map
vm_map-end zero fuel i v vend phys user t n = rw (n, vm_map) refl
vm_map-end (suc l) fuel i v vend phys user t n = rw (n, vm_map) refl

pub vm_map-page :
    (fuel i v vend phys : ℕ) (user : Bool) (t : Table)
    → ltb v vend ≡ true
    → t i ≡ absent
    → vm_map zero (suc fuel) i v vend phys user t
      ≡ vm_map zero fuel
          (suc i)
          (entry_end zero v vend)
          vend
          (next_phys zero phys)
          user
          (set_entry i (page (frame_of phys) user) t)
unfolding vm_map
vm_map-page fuel i v vend phys user t y q = rw (y, q, vm_map) refl

pub vm_map-new :
    (l fuel i v vend phys : ℕ) (user : Bool) (t : Table)
    → ltb v vend ≡ true
    → t i ≡ absent
    → vm_map (suc l) (suc fuel) i v vend phys user t ≡ (
        vm_map l rounds (table_index l v) v (entry_end (suc l) v vend) phys user empty_table
        >>= λ s.
            vm_map
              (suc l)
              fuel
              (suc i)
              (entry_end (suc l) v vend)
              vend
              (next_phys (suc l) phys)
              user
              (set_entry i (table user s) t))
unfolding vm_map
vm_map-new l fuel i v vend phys user t y q = rw (y, q, vm_map) refl

pub vm_map-old :
    (l fuel i v vend phys : ℕ) (user u : Bool) (s t : Table)
    → ltb v vend ≡ true
    → t i ≡ table u s
    → vm_map (suc l) (suc fuel) i v vend phys user t ≡ (
        vm_map l rounds (table_index l v) v (entry_end (suc l) v vend) phys user s >>= λ s'.
        vm_map
          (suc l)
          fuel
          (suc i)
          (entry_end (suc l) v vend)
          vend
          (next_phys (suc l) phys)
          user
          (set_entry i (table (u || user) s') t))
unfolding vm_map
vm_map-old l fuel i v vend phys user u s t y q = rw (y, q, vm_map) refl

-- The entry of the step and the run over the entries behind it.
pub round :
    (l o v vend phys i fuel : ℕ) (new : Entry) (t : Table) (m : Outcome Table)
    → l < 4
    → v < vend
    → Ready l o v vend phys i (suc fuel)
    → IsEntry l v (entry_end l v vend) (mapped_to v phys) (t i) new
    → Yields (IsMapped l o (entry_end l v vend) vend (next_phys l phys) (set_entry i new t)) m
    → Yields (IsMapped l o v vend phys t) m
round l o v vend phys i fuel new t m ll lt r en =
    let s = entry_end-IsStep l v vend ll lt (r.top) in
    let e = entry_end l v vend in
    let f = r.fits lt in
    Yields-imp (IsMapped l o e vend (next_phys l phys) (set_entry i new t))
      (IsMapped l o v vend phys t) m
      (λ t' rest.
        combine l o v vend e i (mapped_to v phys) (mapped_to e (phys + (e - v))) new t t' s
          (mapped_to-agree v vend e phys (s.below) (IsStep-aligned l v vend e s (r.high))) (f.here)
          (r.index lt) en (rest_phys l o v vend phys (set_entry i new t) t' ll lt (r.top) f rest))
