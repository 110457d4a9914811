-- ===== src/Arch/PageTable/Ready.antt =====
-- What the loop of `vm_map` in kernel/arch/amd64/memory/vm.cpp relies on, and how a round keeps it.
use reaveros.Prelude.{
  ℕ, suc, ◌+◌, ◌-◌, ◌%◌, ◌^◌, ◌≤◌, ◌<◌, ◌≡◌, refl, sym, ap, ◌∙◌, subst, Bool-cases, arith, ltb, inl,
  inr,
}
use reaveros.Arch.PageTable.{
  Entry, Table, table_index, entry_end, next_phys, set_entry, virt_to_phys,
}
use reaveros.Arch.PageTable.Steps.{
  IsStep, entry_end-IsStep, next_phys-lem, Meets-step, Meets-shorter, Meets-Congruent, Covers,
  Covers-below, index-entry, IsStep-aligned, later_entry, Fuelled, Fuelled-step, Fuelled-start,
  index-step,
}
use reaveros.Arch.PageTable.Change.{changed_out, virt-set_entry_other}
use reaveros.Arch.PageTable.Mapping.{mapped_to, IsMapped, IsUnmapped, Fits}

-- What a run from an entry on relies on.
pub record Ready (l o v vend phys i fuel : ℕ) : Type 0 where
  pub low : v % 4096 ≡ 0
  pub high : vend % 4096 ≡ 0
  pub top : vend < 2 ^ 64
  pub fuelled : Fuelled l v vend fuel
  pub fits : v < vend → Fits l o v vend phys
  pub index : v < vend → i ≡ table_index l v

Fits-step :
    (l o v vend e phys : ℕ)
    → l < 4
    → IsStep l v vend e
    → e < vend
    → v % 4096 ≡ 0
    → e % 4096 ≡ 0
    → Fits l o v vend phys
    → Fits l o e vend (phys + (e - v))
Fits-step l o v vend e phys ll s h zv ze f = record {
  here = f.covers e (omega (arith, s.below)) h;
  covers = λ x a b. f.covers x (omega (arith, s.below)) b;
  room = omega (arith, s.below, f.room);
  aligned = omega (arith, f.aligned, s.below);
  meets = λ k le. Meets-step k v vend e phys (s.below) h (f.meets k le);
}

pub next_phys-step :
    (l o v vend phys : ℕ)
    → l < 4
    → v < vend
    → vend < 2 ^ 64
    → Fits l o v vend phys
    → entry_end l v vend < vend
    → next_phys l phys ≡ phys + (entry_end l v vend - v)
next_phys-step l o v vend phys ll lt top f h =
    let s = entry_end-IsStep l v vend ll lt top in
    next_phys-lem l v vend (entry_end l v vend) phys ll (s.below) s h
      (Meets-Congruent l v vend (entry_end l v vend) phys s h (f.meets l (omega arith))) (f.room)

pub Ready-step :
    (l o v vend phys i fuel : ℕ)
    → l < 4
    → v < vend
    → Ready l o v vend phys i (suc fuel)
    → Ready l o (entry_end l v vend) vend (next_phys l phys) (suc i) fuel
Ready-step l o v vend phys i fuel ll lt r =
    let s = entry_end-IsStep l v vend ll lt (r.top) in
    let e = entry_end l v vend in
    record {
      low = IsStep-aligned l v vend e s (r.high);
      high = r.high;
      top = r.top;
      fuelled = Fuelled-step l v vend e fuel ll s lt (r.fuelled);
      fits = λ h.
          subst (Fits l o e vend) (sym (next_phys-step l o v vend phys ll lt (r.top) (r.fits lt) h))
            (Fits-step l o v vend e phys ll s h (r.low) (IsStep-aligned l v vend e s (r.high))
              (r.fits lt));
      index = λ h.
          ap suc (r.index lt)
          ∙ sym (
              index-step l v vend e ll s
                ((r.fits lt).covers e (omega (arith, s.below)) h ∙ sym ((r.fits lt).here)) h);
    }

pub Ready-below :
    (l o v vend phys i fuel : ℕ)
    → suc l < 4
    → v < vend
    → Ready (suc l) o v vend phys i (suc fuel)
    → Ready l v v (entry_end (suc l) v vend) phys (table_index l v) 514
Ready-below l o v vend phys i fuel ll lt r =
    let s = entry_end-IsStep (suc l) v vend ll lt (r.top) in
    let e = entry_end (suc l) v vend in
    let cov : (x : ℕ) → v ≤ x → x < e → Covers l v x =
      λ x a b. Covers-below l v x ll (s.same x a b) in
    record {
      low = r.low;
      high = IsStep-aligned (suc l) v vend e s (r.high);
      top = omega (arith, s.within, r.top);
      fuelled = Fuelled-start l v e (omega arith) cov (s.below);
      fits = λ h. record {
        here = refl;
        covers = cov;
        room = omega (arith, s.within, (r.fits lt).room);
        aligned = (r.fits lt).aligned;
        meets = λ k le.
            Meets-shorter k v vend e phys (s.below) (s.within) ((r.fits lt).meets k (omega arith));
      };
      index = λ h. refl;
    }

pub IsUnmapped-step :
    (l o v vend phys i fuel : ℕ) (new : Entry) (t : Table)
    → l < 4
    → v < vend
    → Ready l o v vend phys i (suc fuel)
    → IsUnmapped l v vend t
    → IsUnmapped l (entry_end l v vend) vend (set_entry i new t)
IsUnmapped-step l o v vend phys i fuel new t ll lt r un x a b =
    let s = entry_end-IsStep l v vend ll lt (r.top) in
    let le : v ≤ x = omega (arith, s.below) in
    let f = r.fits lt in
    virt-set_entry_other l i new t x (λ q.
      later_entry l v vend (entry_end l v vend) x s (omega arith) a
        (index-entry l v x (f.covers x le b ∙ sym (f.here)) (sym q ∙ r.index lt)))
    ∙ un x le b

-- The rest of the range, whose physical address counts only where there is a rest.
pub rest_phys :
    (l o v vend phys : ℕ) (t t' : Table)
    → l < 4
    → v < vend
    → vend < 2 ^ 64
    → Fits l o v vend phys
    → IsMapped l o (entry_end l v vend) vend (next_phys l phys) t t'
    → IsMapped l o (entry_end l v vend) vend (phys + (entry_end l v vend - v)) t t'
rest_phys l o v vend phys t t' ll lt top f m =
    let e = entry_end l v vend in
    elim (Bool-cases (ltb e vend)) [
      | inl y ↦
          subst (λ p. IsMapped l o e vend p t t')
            (next_phys-step l o v vend phys ll lt top f (ground (arith, y))) m
      | inr n ↦ λ x c.
          let out : e ≤ x → x < vend → ⊥ = λ a b. ground (arith, n) in
          m x c
          ∙ changed_out e vend (mapped_to e (next_phys l phys)) x (virt_to_phys l t x) out
          ∙ sym (changed_out e vend (mapped_to e (phys + (e - v))) x (virt_to_phys l t x) out)
    ]
