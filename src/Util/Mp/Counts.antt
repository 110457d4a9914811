-- ===== src/Util/Mp/Counts.antt =====
-- Counts of queues with an item, and of runs, in kernel/util/mp.cpp.
use reaveros.Prelude.{
  ℕ, zero, suc, ◌+◌, ◌%◌, ◌^◌, ◌≤◌, ◌<◌, ◌≡◌, ◌≢◌, ◌⊎◌, inl, inr, refl, sym, ap, ◌∙◌, Bool,
  Bool-cases, false, not, ◌&&◌, List, [], ◌∷◌, ◌++◌, Never, ◌==◌, ==-false, eq_of_==, ne_of_==,
  if◌then◌else◌, arith,
}
use reaveros.Util.Mp.{Run, write}
use reaveros.Util.Mp.Stale.{write_self, write_other}

abbrev pub bit : Bool → ℕ
bit b = if b then 1 else 0

-- The cores below `n` whose queues have an item.
abbrev pub pend : (ℕ → ℕ) → ℕ → ℕ
pend head zero = 0
pend head (suc n) = bit (not (head n == 0)) + pend head n

pub pend-write_out : (head : ℕ → ℕ) (j n v : ℕ) → n ≤ j → pend (write j v head) n ≡ pend head n
pend-write_out head j zero v le = refl
pend-write_out head j (suc n) v le =
    rw (write_other j v n head (λ e. omega arith))
      (ap (λ c. bit (not (head n == 0)) + c) (pend-write_out head j n v (omega arith)))

pub pend-sent : (head : ℕ → ℕ) (i v : ℕ) → v ≢ 0 → pend (write i v head) (suc i) ≡ suc (pend head i)
pend-sent head i v ne =
    rw (write_self i v head, ==-false v 0 ne)
      (omega (arith, pend-write_out head i i v (omega arith)))

pub pend-write :
    (head : ℕ → ℕ) (j n : ℕ) → j < n → head j ≢ 0 → pend head n ≡ suc (pend (write j 0 head) n)
pend-write head j zero lt ne = absurd (omega arith)
pend-write head j (suc n) lt ne = elim (Bool-cases (j == n)) [
  | inl y ↦
      let q : j ≡ n = eq_of_== j n y in
      let here : head n == 0 ≡ false = ==-false (head n) 0 (λ e. ne (ap head q ∙ e)) in
      let gone : write j 0 head n ≡ 0 = ap (write j 0 head) (sym q) ∙ write_self j 0 head in
      let rest = pend-write_out head j n 0 (omega arith) in rw (here, gone) (omega (arith, rest))
  | inr m ↦
      let other : write j 0 head n ≡ head n = write_other j 0 n head (ne_of_== j n m) in
      let rest = pend-write head j n (ground (arith, m)) ne in rw other (omega (arith, rest))
]

pub pend-le : (head : ℕ → ℕ) (n : ℕ) → pend head n ≤ n
pend-le head zero = omega arith
pend-le head (suc n) = elim (Bool-cases (head n == 0)) [
  | inl y ↦ rw y (omega (arith, pend-le head n))
  | inr m ↦ rw m (omega (arith, pend-le head n))
]

pub next_count : (u c : ℕ) → u ≡ c → suc c < 2 ^ 64 → (u + 1) % 2 ^ 64 ≡ suc c
next_count u c q lt = omega arith

pub pend-zero : (head : ℕ → ℕ) (n : ℕ) → ((j : ℕ) → j < n → head j ≡ 0) → pend head n ≡ 0
pend-zero head zero h = refl
pend-zero head (suc n) h =
    rw (h n (omega arith)) (omega (arith, pend-zero head n (λ j lt. h j (omega arith))))

-- How often the function of a call has been run on a core.
abbrev pub runs_of : ℕ → ℕ → List Run → ℕ
runs_of core state [] = 0
runs_of core state (r ∷ rs) = bit (r.core == core && r.state == state) + runs_of core state rs

pub runs_of-append :
    (core state : ℕ) (rs ss : List Run)
    → runs_of core state (rs ++ ss) ≡ runs_of core state rs + runs_of core state ss
runs_of-append core state [] ss = omega arith
runs_of-append core state (r ∷ rs) ss = omega (arith, runs_of-append core state rs ss)

abbrev pub IsIn : ℕ → List ℕ → Type 0
IsIn j [] = Never
IsIn j (x ∷ xs) = (j ≡ x) ⊎ IsIn j xs
