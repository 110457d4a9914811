-- ===== src/Arch/PageTable/Steps.antt =====
-- One step of the loops of kernel/arch/amd64/memory/vm.cpp from an entry to the next one.
use reaveros.Prelude.{
  ℕ, zero, suc, ◌+◌, ◌-◌, ◌/◌, ◌%◌, ◌^◌, ◌≤◌, ◌<◌, ◌≡◌, ◌≢◌, ◌⊎◌, inl, inr, sym, arith,
}
use reaveros.Arch.PageTable.{entry_size, table_index, entry_end, next_phys}

-- The end of an entry's part of the range: behind the start, in the same entry, and the end of the
-- range or the start of the next entry.
pub record IsStep (l v vend e : ℕ) : Type 0 where
  pub below : v < e
  pub within : e ≤ vend
  pub same : (x : ℕ) → v ≤ x → x < e → x / entry_size l ≡ v / entry_size l
  pub next : e < vend → e / entry_size l ≡ suc (v / entry_size l)
  pub start : e < vend → e % entry_size l ≡ 0

pub entry_end-IsStep :
    (l v vend : ℕ) → l < 4 → v < vend → vend < 2 ^ 64 → IsStep l v vend (entry_end l v vend)
unfolding entry_end
entry_end-IsStep zero v vend ll lt top = record {
  below = ground arith;
  within = ground arith;
  same = λ x le hi. ground arith;
  next = λ h. ground arith;
  start = λ h. ground arith;
}
entry_end-IsStep (suc zero) v vend ll lt top = record {
  below = ground arith;
  within = ground arith;
  same = λ x le hi. ground arith;
  next = λ h. ground arith;
  start = λ h. ground arith;
}
entry_end-IsStep (suc (suc zero)) v vend ll lt top = record {
  below = ground arith;
  within = ground arith;
  same = λ x le hi. ground arith;
  next = λ h. ground arith;
  start = λ h. ground arith;
}
entry_end-IsStep (suc (suc (suc l))) v vend ll lt top = record {
  below = ground arith;
  within = ground arith;
  same = λ x le hi. ground arith;
  next = λ h. ground arith;
  start = λ h. ground arith;
}

-- The two addresses lie at the same place of an entry.
abbrev pub Congruent : ℕ → ℕ → ℕ → Type 0
Congruent l phys v = phys % entry_size l ≡ v % entry_size l

-- The step of the physical address, where the two addresses lie at the same place of an entry.
pub next_phys-lem :
    (l v vend e phys : ℕ)
    → l < 4
    → v < e
    → IsStep l v vend e
    → e < vend
    → Congruent l phys v
    → phys + (vend - v) ≤ 2 ^ 52
    → next_phys l phys ≡ phys + (e - v)
unfolding next_phys
next_phys-lem zero v vend e phys ll lt s h c top = omega (arith, s.next h, s.start h)
next_phys-lem (suc zero) v vend e phys ll lt s h c top = omega (arith, s.next h, s.start h)
next_phys-lem (suc (suc zero)) v vend e phys ll lt s h c top = omega (arith, s.next h, s.start h)
next_phys-lem (suc (suc (suc l))) v vend e phys ll lt s h c top = omega (arith, s.next h, s.start h)

-- No entry of the level ends inside of the range, or the two addresses lie at the same place of one.
abbrev pub Meets : ℕ → ℕ → ℕ → ℕ → Type 0
Meets l v vend phys = (v / entry_size l ≡ (vend - 1) / entry_size l) ⊎ Congruent l phys v

pub Meets-step :
    (l v vend e phys : ℕ) → v < e → e < vend → Meets l v vend phys → Meets l e vend (phys + (e - v))
Meets-step zero v vend e phys a b (inl q) = inl (omega arith)
Meets-step zero v vend e phys a b (inr c) = inr (omega arith)
Meets-step (suc zero) v vend e phys a b (inl q) = inl (omega arith)
Meets-step (suc zero) v vend e phys a b (inr c) = inr (omega arith)
Meets-step (suc (suc zero)) v vend e phys a b (inl q) = inl (omega arith)
Meets-step (suc (suc zero)) v vend e phys a b (inr c) = inr (omega arith)
Meets-step (suc (suc (suc l))) v vend e phys a b (inl q) = inl (omega arith)
Meets-step (suc (suc (suc l))) v vend e phys a b (inr c) = inr (omega arith)

pub Meets-shorter :
    (l v vend e phys : ℕ) → v < e → e ≤ vend → Meets l v vend phys → Meets l v e phys
Meets-shorter l v vend e phys a b (inr c) = inr c
Meets-shorter zero v vend e phys a b (inl q) = inl (omega arith)
Meets-shorter (suc zero) v vend e phys a b (inl q) = inl (omega arith)
Meets-shorter (suc (suc zero)) v vend e phys a b (inl q) = inl (omega arith)
Meets-shorter (suc (suc (suc l))) v vend e phys a b (inl q) = inl (omega arith)

-- The part of the address space that one table covers, which is an entry of the level above.
abbrev pub Covers : ℕ → ℕ → ℕ → Type 0
Covers l v x = x / entry_size l / 512 ≡ v / entry_size l / 512

pub Covers-below :
    (l v x : ℕ) → suc l < 4 → x / entry_size (suc l) ≡ v / entry_size (suc l) → Covers l v x
Covers-below zero v x ll e = omega arith
Covers-below (suc zero) v x ll e = omega arith
Covers-below (suc (suc zero)) v x ll e = omega arith
Covers-below (suc (suc (suc l))) v x ll e = absurd (omega arith)

-- In one table an index tells the entry.
pub index-entry :
    (l v x : ℕ)
    → Covers l v x
    → table_index l x ≡ table_index l v
    → x / entry_size l ≡ v / entry_size l
index-entry l v x c e = omega arith

-- A step from one page to the next keeps to pages.
pub IsStep-aligned : (l v vend e : ℕ) → IsStep l v vend e → vend % 4096 ≡ 0 → e % 4096 ≡ 0
IsStep-aligned zero v vend e s z = ground (arith, s.within, s.start)
IsStep-aligned (suc zero) v vend e s z = ground (arith, s.within, s.start)
IsStep-aligned (suc (suc zero)) v vend e s z = ground (arith, s.within, s.start)
IsStep-aligned (suc (suc (suc l))) v vend e s z = ground (arith, s.within, s.start)

-- Entries of a table that are left: fewer than the rounds.
abbrev pub Fuelled : ℕ → ℕ → ℕ → ℕ → Type 0
Fuelled l v vend fuel =
    (1 ≤ fuel) × (v < vend → suc ((vend - 1) / entry_size l - v / entry_size l) < fuel)

pub Fuelled-step :
    (l v vend e fuel : ℕ)
    → l < 4
    → IsStep l v vend e
    → v < vend
    → Fuelled l v vend (suc fuel)
    → Fuelled l e vend fuel
Fuelled-step zero v vend e fuel ll s lt f =
    let n = f.1 lt in (omega arith, λ h. omega (arith, s.next h, s.start h))
Fuelled-step (suc zero) v vend e fuel ll s lt f =
    let n = f.1 lt in (omega arith, λ h. omega (arith, s.next h, s.start h))
Fuelled-step (suc (suc zero)) v vend e fuel ll s lt f =
    let n = f.1 lt in (omega arith, λ h. omega (arith, s.next h, s.start h))
Fuelled-step (suc (suc (suc l))) v vend e fuel ll s lt f =
    let n = f.1 lt in (omega arith, λ h. omega (arith, s.next h, s.start h))

-- One table's entries are fewer than the rounds.
pub Fuelled-start :
    (l v vend : ℕ)
    → l < 4
    → ((x : ℕ) → v ≤ x → x < vend → Covers l v x)
    → v < vend
    → Fuelled l v vend 514
Fuelled-start zero v vend ll c lt =
    (omega arith, λ h. omega (arith, c (vend - 1) (omega arith) (omega arith)))
Fuelled-start (suc zero) v vend ll c lt =
    (omega arith, λ h. omega (arith, c (vend - 1) (omega arith) (omega arith)))
Fuelled-start (suc (suc zero)) v vend ll c lt =
    (omega arith, λ h. omega (arith, c (vend - 1) (omega arith) (omega arith)))
Fuelled-start (suc (suc (suc l))) v vend ll c lt =
    (omega arith, λ h. omega (arith, c (vend - 1) (omega arith) (omega arith)))

-- The index steps with the entry.
pub index-step :
    (l v vend e : ℕ)
    → l < 4
    → IsStep l v vend e
    → Covers l v e
    → e < vend
    → table_index l e ≡ suc (table_index l v)
index-step l v vend e ll s c h = omega (arith, s.next h)

-- What lies behind the step is in a later entry.
pub later_entry :
    (l v vend e x : ℕ) → IsStep l v vend e → e < vend → e ≤ x → x / entry_size l ≢ v / entry_size l
later_entry zero v vend e x s h le q = omega (arith, s.next h)
later_entry (suc zero) v vend e x s h le q = omega (arith, s.next h)
later_entry (suc (suc zero)) v vend e x s h le q = omega (arith, s.next h)
later_entry (suc (suc (suc l))) v vend e x s h le q = omega (arith, s.next h)

-- A step that does not end the range crosses the end of an entry.
pub Meets-Congruent :
    (l v vend e phys : ℕ) → IsStep l v vend e → e < vend → Meets l v vend phys → Congruent l phys v
Meets-Congruent l v vend e phys s h (inl q) =
    absurd (later_entry l v vend e (vend - 1) s h (omega arith) (sym q))
Meets-Congruent l v vend e phys s h (inr c) = c
