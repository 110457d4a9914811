-- ===== src/Util/IntrusivePtr/Counts.antt =====
-- The counts of kernel/util/intrusive_ptr.h.
use reaveros.Prelude.{
  ℕ, zero, suc, ◌+◌, ◌-◌, ◌%◌, ◌^◌, ◌≤◌, ◌<◌, ◌≡◌, ◌≢◌, refl, sym, ap, subst, ◌∙◌, Bool, true,
  arith, ◌==◌, ==-refl, ==-false, eq_of_==, ne_of_==, not, Bool-cases, inl, inr,
}
use reaveros.Prelude.Outcome.{Yields}
use reaveros.Util.TreeHeap.{put}
use reaveros.Util.TreeHeap.Contents.{bit, count, count-put}
use reaveros.Util.IntrusivePtr.{Owners, set_ptr, claim, disown}

abbrev pub points_to : ℕ → ℕ → Bool
points_to p q = q == p

-- Of `n` pointers, those to an object; `debt` is how many of them the count does not count.
pub record Tallies (n : ℕ) (debt : ℕ → ℕ) (s : Owners) : Type 0 where
  pub tally : (p : ℕ) → p ≢ 0 → s.intrusive_count p + debt p ≡ count (points_to p) s.ptr n
  pub alive : (p : ℕ) → p ≢ 0 → s.live p ≡ not (s.intrusive_count p == 0)

-- An object's count is the number of the pointers to it, and it is deleted exactly when there is none.
abbrev pub IsCounted : ℕ → Owners → Type 0
IsCounted n s = Tallies n (λ p. 0) s

-- The debt for one pointer.
abbrev pub owed : ℕ → ℕ → ℕ
owed q p = bit (points_to p q)

count-most : (f : ℕ → Bool) (at : ℕ → ℕ) (n : ℕ) → count f at n ≤ n
count-most f at zero = omega arith
count-most f at (suc n) = ground (arith, count-most f at n)

pub count-some :
    (f : ℕ → Bool) (at : ℕ → ℕ) (n j : ℕ) → 1 ≤ j → j ≤ n → f (at j) ≡ true → 1 ≤ count f at n
count-some f at zero j a b e = omega (arith, a, b)
count-some f at (suc n) j a b e = elim (Bool-cases (j == suc n)) [
  | inl y ↦ rw (ap (λ k. f (at k)) (sym (eq_of_== j (suc n) y)) ∙ e) (omega arith)
  | inr y ↦ omega (arith, count-some f at n j a (omega (arith, b, ne_of_== j (suc n) y)) e)
]

alive-true :
    (n : ℕ) (debt : ℕ → ℕ) (s : Owners) (p : ℕ)
    → Tallies n debt s
    → p ≢ 0
    → 1 ≤ s.intrusive_count p
    → s.live p ≡ true
alive-true n debt s p c z h =
    c.alive p z ∙ rw (==-false (s.intrusive_count p) 0 (λ e. omega (arith, e, h))) refl

pub put_own : {A : Type 0} (q p : ℕ) (v : A) (f : ℕ → A) → q ≡ p → put q v f p ≡ v
put_own q p v f e = rw (==-refl q p e) refl

pub put_other : {A : Type 0} (q p : ℕ) (v : A) (f : ℕ → A) → q ≢ p → put q v f p ≡ f p
put_other q p v f n = rw (==-false q p n) refl

pub owed-own : (q p : ℕ) → q ≡ p → owed q p ≡ 1
owed-own q p e = rw (==-refl q p e) refl

pub owed-other : (q p : ℕ) → q ≢ p → owed q p ≡ 0
owed-other q p n = rw (==-false q p n) refl

-- A word less by one is 0 where it was 1.
decremented-zero :
    (x : ℕ) → 1 ≤ x → x < 2 ^ 64 → not (x == 1) ≡ not ((x + (2 ^ 64 - 1)) % 2 ^ 64 == 0)
decremented-zero x a b =
    let e : (x + (2 ^ 64 - 1)) % 2 ^ 64 ≡ x - 1 = omega (arith, a, b) in
    rw e (elim (Bool-cases (x == 1)) [
      | inl y ↦ rw (y, ==-refl (x - 1) 0 (omega (arith, eq_of_== x 1 y))) refl
      | inr y ↦ rw (y, ==-false (x - 1) 0 (λ q. ne_of_== x 1 y (omega (arith, q, a)))) refl
    ])

pub disown-Tallies :
    (n i : ℕ) (s : Owners)
    → n < 2 ^ 64
    → 1 ≤ i
    → i ≤ n
    → IsCounted n s
    → Yields (λ t. (t.ptr ≡ s.ptr) × Tallies n (owed (s.ptr i)) t) (disown i s)
unfolding disown
disown-Tallies n i s top a b c = elim (Bool-cases (s.ptr i == 0)) [
  | inl y ↦
      rw (y, disown)
        (
          refl,
          record {
            tally = λ p z.
                ap (λ k. s.intrusive_count p + k)
                  (owed-other (s.ptr i) p (λ q. z (sym q ∙ eq_of_== (s.ptr i) 0 y)))
                ∙ c.tally p z;
            alive = c.alive;
          },
        )
  | inr y ↦
      let q : ℕ = s.ptr i in
      let z : q ≢ 0 = ne_of_== (s.ptr i) 0 y in
      let some_there : 1 ≤ s.intrusive_count q =
        omega (arith, c.tally q z, count-some (points_to q) s.ptr n i a b (==-refl q q refl)) in
      let few : s.intrusive_count q < 2 ^ 64 =
        omega (arith, c.tally q z, count-most (points_to q) s.ptr n, top) in
      rw (y, disown)
        (rw (alive-true n (λ p. 0) s q c z some_there, disown)
          (
            refl,
            record {
              tally = λ p w. elim (Bool-cases (q == p)) [
                | inl m ↦
                    let e : q ≡ p = eq_of_== q p m in
                    let d : put q ((s.intrusive_count q + (2 ^ 64 - 1)) % 2 ^ 64) s.intrusive_count
                          p
                        ≡ (s.intrusive_count q + (2 ^ 64 - 1)) % 2 ^ 64 =
                      put_own q p ((s.intrusive_count q + (2 ^ 64 - 1)) % 2 ^ 64) s.intrusive_count
                        e in
                    let t : count (points_to q) s.ptr n ≡ count (points_to p) s.ptr n =
                      ap (λ k. count (points_to k) s.ptr n) e in
                    omega (arith, d, owed-own q p e, c.tally q z, some_there, few, t)
                | inr m ↦
                    let e : q ≢ p = ne_of_== q p m in
                    let d : put q ((s.intrusive_count q + (2 ^ 64 - 1)) % 2 ^ 64) s.intrusive_count
                          p
                        ≡ s.intrusive_count p =
                      put_other q p ((s.intrusive_count q + (2 ^ 64 - 1)) % 2 ^ 64)
                        s.intrusive_count e in
                    omega (arith, d, owed-other q p e, c.tally p w)
              ];
              alive = λ p w. elim (Bool-cases (q == p)) [
                | inl m ↦ rw m (decremented-zero (s.intrusive_count q) some_there few)
                | inr m ↦ rw m (c.alive p w)
              ];
            },
          ))
]

-- The debt after a pointer has been set.
pub set_ptr-Tallies :
    (n i v : ℕ) (s : Owners)
    → 1 ≤ i
    → i ≤ n
    → Tallies n (owed (s.ptr i)) s
    → Tallies n (owed v) (set_ptr i v s)
set_ptr-Tallies n i v s a b t = record {
  tally = λ p z. omega (arith, t.tally p z, count-put (λ k. k) (points_to p) i n v s.ptr a b);
  alive = t.alive;
}

-- A pointer whose object lives is counted.
pub claim-IsCounted :
    (n i : ℕ) (s : Owners)
    → n < 2 ^ 64
    → Tallies n (owed (s.ptr i)) s
    → (s.ptr i ≢ 0 → 1 ≤ s.intrusive_count (s.ptr i))
    → Yields (IsCounted n) (claim i s)
unfolding claim
claim-IsCounted n i s top t h = elim (Bool-cases (s.ptr i == 0)) [
  | inl y ↦
      rw (y, claim)
        (record {
          tally = λ p z.
              ap (λ k. s.intrusive_count p + k)
                (sym (owed-other (s.ptr i) p (λ q. z (sym q ∙ eq_of_== (s.ptr i) 0 y))))
              ∙ t.tally p z;
          alive = t.alive;
        })
  | inr y ↦
      let q : ℕ = s.ptr i in
      let z : q ≢ 0 = ne_of_== (s.ptr i) 0 y in
      let few : s.intrusive_count q + 1 < 2 ^ 64 =
        omega (arith, t.tally q z, owed-own q q refl, count-most (points_to q) s.ptr n, top) in
      rw (y, claim)
        (rw (alive-true n (owed q) s q t z (h z), claim)
          (record {
            tally = λ p w. elim (Bool-cases (q == p)) [
              | inl m ↦
                  let e : q ≡ p = eq_of_== q p m in
                  let d : put q ((s.intrusive_count q + 1) % 2 ^ 64) s.intrusive_count p
                      ≡ (s.intrusive_count q + 1) % 2 ^ 64 =
                    put_own q p ((s.intrusive_count q + 1) % 2 ^ 64) s.intrusive_count e in
                  let u : count (points_to q) s.ptr n ≡ count (points_to p) s.ptr n =
                    ap (λ k. count (points_to k) s.ptr n) e in
                  omega (arith, d, owed-own q q refl, t.tally q z, few, u)
              | inr m ↦
                  let e : q ≢ p = ne_of_== q p m in
                  let d : put q ((s.intrusive_count q + 1) % 2 ^ 64) s.intrusive_count p
                      ≡ s.intrusive_count p =
                    put_other q p ((s.intrusive_count q + 1) % 2 ^ 64) s.intrusive_count e in
                  omega (arith, d, owed-other q p e, t.tally p w)
            ];
            alive = λ p w. elim (Bool-cases (q == p)) [
              | inl m ↦ rw m (
                  alive-true n (owed q) s p t w
                    (subst (λ k. 1 ≤ s.intrusive_count k) (eq_of_== q p m) (h z))
                  ∙ sym (
                      ap not (
                        ==-false ((s.intrusive_count q + 1) % 2 ^ 64) 0
                          (λ k. omega (arith, k, few)))))
              | inr m ↦ rw m (t.alive p w)
            ];
          }))
]
