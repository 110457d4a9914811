-- ===== src/Util/TreeHeap/Down.antt =====
-- The restoration of the order by the loop of `pop` of kernel/util/tree_heap.h.
use reaveros.Prelude.{
  ℕ, zero, suc, ◌+◌, ◌*◌, ◌/◌, ◌≤◌, ◌<◌, ◌≡◌, ◌≢◌, refl, ◌∙◌, ◌⊎◌, Bool-cases, ltb, leb, ◌&&◌, ◌==◌,
  arith, inl, inr, eq_of_==, ne_of_==,
}
use reaveros.Util.TreeHeap.{swap, better, best_of, sift_down}
use reaveros.Util.TreeHeap.Order.{IsHeap, same-cases, swap-cases}

module _ {ℓ} {A : Type ℓ} (key : A → ℕ) where
  -- The order but below the place `i`.
  pub record IsDown (n i : ℕ) (at : ℕ → A) : Type 0 where
    pub edges : (k : ℕ) → 2 ≤ k → k ≤ n → k / 2 ≢ i → key (at (k / 2)) ≤ key (at k)
    pub bridged : (k : ℕ) → 2 ≤ i → k ≤ n → k / 2 ≡ i → key (at (i / 2)) ≤ key (at k)

  -- The better one of two places.
  abbrev IsBetter : ℕ → (ℕ → A) → ℕ → ℕ → ℕ → Type 0
  IsBetter n at child best r =
      ((r ≡ child) × (child ≤ n) × (key (at child) < key (at best)))
      ⊎ ((r ≡ best) × (child ≤ n → key (at best) ≤ key (at child)))

  better_lem :
      (n : ℕ) (at : ℕ → A) (child best : ℕ) → IsBetter n at child best (better key n at child best)
  better_lem n at child best =
      elim (Bool-cases (leb child n && ltb (key (at child)) (key (at best)))) [
        | inl y ↦ rw y (inl (refl, ground (arith, y), ground (arith, y)))
        | inr m ↦ rw m (inr (refl, λ a. ground (arith, m)))
      ]

  -- The best of a place and those below it.
  pub record IsBest (n i : ℕ) (at : ℕ → A) (b : ℕ) : Type 0 where
    pub place : (b ≡ i) ⊎ ((b / 2 ≡ i) × (b ≤ n) × (i < b) × (key (at b) < key (at i)))
    pub least : (k : ℕ) → k ≤ n → k / 2 ≡ i → key (at b) ≤ key (at k)

  children : {P : Type 0} {i : ℕ} (k : ℕ) → k / 2 ≡ i → (k ≡ 2 * i → P) → (k ≡ 2 * i + 1 → P) → P
  children {P} {i} k q a b = elim (same-cases key k (2 * i)) [
    | inl e ↦ a e
    | inr n ↦ b (omega arith)
  ]

  better_twice :
      (n i : ℕ) (at : ℕ → A) (r s : ℕ)
      → 1 ≤ i
      → IsBetter n at (2 * i) i r
      → IsBetter n at (2 * i + 1) r s
      → IsBest n i at s
  better_twice n i at r s low (inl a) (inl b) = record {
    place = inr (
      omega (arith, b.0),
      omega (arith, b.0, b.1),
      omega (arith, b.0),
      grind (arith, a.0, a.2, b.0, b.2),
    );
    least =
        λ k le q. children k q (λ e. grind (arith, e, a.0, b.0, b.2)) (λ e. grind (arith, e, b.0));
  }
  better_twice n i at r s low (inl a) (inr b) = record {
    place = inr (
      omega (arith, a.0, b.0),
      omega (arith, a.0, a.1, b.0),
      omega (arith, a.0, b.0),
      grind (arith, a.0, a.2, b.0),
    );
    least = λ k le q.
        children k q (λ e. grind (arith, e, a.0, b.0)) (λ e. grind (arith, e, le, b.0, b.1));
  }
  better_twice n i at r s low (inr a) (inl b) = record {
    place = inr (
      omega (arith, b.0),
      omega (arith, b.0, b.1),
      omega (arith, b.0),
      grind (arith, a.0, b.0, b.2),
    );
    least = λ k le q.
        children k q (λ e. grind (arith, e, le, a.0, a.1, b.0, b.2)) (λ e. grind (arith, e, b.0));
  }
  better_twice n i at r s low (inr a) (inr b) = record {
    place = inl (b.0 ∙ a.0);
    least = λ k le q.
        children k q (λ e. grind (arith, e, le, a.0, a.1, b.0))
          (λ e. grind (arith, e, le, a.0, b.0, b.1));
  }

  pub best_of_lem : (n i : ℕ) (at : ℕ → A) → 1 ≤ i → IsBest n i at (best_of key n at i)
  best_of_lem n i at low =
      better_twice n i at (better key n at (2 * i) i) (best_of key n at i) low
        (better_lem n at (2 * i) i) (better_lem n at (2 * i + 1) (better key n at (2 * i) i))

  swap-IsDown :
      (n i b : ℕ) (at : ℕ → A)
      → 1 ≤ i
      → b / 2 ≡ i
      → b ≤ n
      → key (at b) < key (at i)
      → ((k : ℕ) → k ≤ n → k / 2 ≡ i → key (at b) ≤ key (at k))
      → IsDown n i at
      → IsDown n b (swap i b at)
  swap-IsDown n i b at low above high lt least d =
      let ne : i ≢ b = λ e. omega arith in
      record {
        edges = λ k a c q.
            let here = swap-cases key i b k at ne in
            let over = swap-cases key i b (k / 2) at ne in
            grind (arith, d.edges k, d.bridged k, d.bridged b, least k);
        bridged = λ k a c q.
            let here = swap-cases key i b k at ne in
            let over = swap-cases key i b (b / 2) at ne in grind (arith, d.edges k);
      }

  pub sift_down-IsHeap :
      (n fuel i : ℕ) (at : ℕ → A)
      → 1 ≤ i
      → n < fuel + i
      → IsDown n i at
      → IsHeap key n (sift_down key fuel n i at)
  unfolding sift_down
  sift_down-IsHeap n zero i at low le d = λ k a b. d.edges k a b (λ q. omega arith)
  sift_down-IsHeap n (suc fuel) i at low le d =
      let b = best_of key n at i in
      let best = best_of_lem n i at low in
      elim (Bool-cases (b == i)) [
        | inl y ↦
            let q : b ≡ i = eq_of_== b i y in
            rw (y, sift_down)
              (λ k a c. elim (same-cases key (k / 2) i) [
                | inl e ↦ grind (arith, q, e, best.least k)
                | inr e ↦ d.edges k a c e
              ])
        | inr m ↦
            rw (m, sift_down)
              (elim best.place [
                | inl e ↦ absurd (ne_of_== b i m e)
                | inr p ↦
                    sift_down-IsHeap n fuel b (swap i b at) (omega (arith, p.2))
                      (omega (arith, p.2))
                      (swap-IsDown n i b at low (p.0) (p.1) (p.3) (best.least) d)
              ])
      ]

  -- The element at the top is the least one.
  pub IsHeap-least :
      (n fuel k : ℕ) (at : ℕ → A)
      → IsHeap key n at
      → 1 ≤ k
      → k ≤ n
      → k ≤ fuel
      → key (at 1) ≤ key (at k)
  IsHeap-least n zero k at h a b c = absurd (omega arith)
  IsHeap-least n (suc fuel) k at h a b c = elim (same-cases key k 1) [
    | inl e ↦ grind (arith, e)
    | inr e ↦
        let above =
          IsHeap-least n fuel (k / 2) at h (omega (arith, e)) (omega arith) (omega arith) in
        omega (arith, above, h k (omega (arith, e)) b)
  ]
