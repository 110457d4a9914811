-- ===== src/Util/TreeHeap/Order.antt =====
-- The order of the elements in the tree of kernel/util/tree_heap.h, and its restoration by the loop of `push`.
use reaveros.Prelude.{
  ℕ, zero, suc, ◌/◌, ◌≤◌, ◌<◌, ◌≡◌, ◌≢◌, refl, sym, ap, ◌∙◌, ◌⊎◌, Bool-cases, ltb, ◌&&◌, not, ◌==◌,
  arith, inl, inr, ==-refl, ==-false, eq_of_==, ne_of_==,
}
use reaveros.Util.TreeHeap.{swap, sift_up}

module _ {ℓ} {A : Type ℓ} (key : A → ℕ) where
  -- No element is less than the one above it.
  abbrev pub IsHeap : ℕ → (ℕ → A) → Type 0
  IsHeap n at = (k : ℕ) → 2 ≤ k → k ≤ n → key (at (k / 2)) ≤ key (at k)

  -- The same but at the place `i`.
  pub record IsUp (n i : ℕ) (at : ℕ → A) : Type 0 where
    pub edges : (k : ℕ) → 2 ≤ k → k ≤ n → k ≢ i → key (at (k / 2)) ≤ key (at k)
    pub bridged : (k : ℕ) → 2 ≤ i → k ≤ n → k / 2 ≡ i → key (at (i / 2)) ≤ key (at k)

  pub swap_first : (j k : ℕ) (at : ℕ → A) → swap j k at j ≡ at k
  swap_first j k at = rw (==-refl j j refl) refl

  pub swap_second : (j k : ℕ) (at : ℕ → A) → j ≢ k → swap j k at k ≡ at j
  swap_second j k at n = rw (==-false j k n, ==-refl k k refl) refl

  pub swap_other : (j k m : ℕ) (at : ℕ → A) → j ≢ m → k ≢ m → swap j k at m ≡ at m
  swap_other j k m at n n' = rw (==-false j m n, ==-false k m n') refl

  -- Which of the places of a swap a place is.
  pub same-cases : (j m : ℕ) → (j ≡ m) ⊎ (j ≢ m)
  same-cases j m = elim (Bool-cases (j == m)) [
    | inl y ↦ inl (eq_of_== j m y)
    | inr n ↦ inr (ne_of_== j m n)
  ]

  -- The key at a place after a swap.
  abbrev pub swapped : ℕ → ℕ → ℕ → (ℕ → A) → ℕ
  swapped j k m at = key (swap j k at m)

  pub swap-cases :
      (j k m : ℕ) (at : ℕ → A)
      → j ≢ k
      → ((m ≡ j) × (swapped j k m at ≡ key (at k)))
        ⊎ (((m ≡ k) × (swapped j k m at ≡ key (at j)))
            ⊎ ((m ≢ j) × (m ≢ k) × (swapped j k m at ≡ key (at m))))
  swap-cases j k m at n = elim (same-cases j m) [
    | inl q ↦ inl (sym q, ap key (ap (swap j k at) (sym q) ∙ swap_first j k at))
    | inr a ↦ elim (same-cases k m) [
      | inl q ↦ inr (inl (sym q, ap key (ap (swap j k at) (sym q) ∙ swap_second j k at n)))
      | inr b ↦ inr (inr ((λ e. a (sym e)), (λ e. b (sym e)), ap key (swap_other j k m at a b)))
    ]
  ]

  swap-IsUp :
      (n i : ℕ) (at : ℕ → A)
      → 2 ≤ i
      → i ≤ n
      → key (at i) < key (at (i / 2))
      → IsUp n i at
      → IsUp n (i / 2) (swap (i / 2) i at)
  swap-IsUp n i at low high lt u =
      let j = i / 2 in
      let ne : j ≢ i = λ e. omega arith in
      record {
        edges = λ k a b c.
            let here = swap-cases j i k at ne in
            let above = swap-cases j i (k / 2) at ne in
            grind (arith, u.edges k, u.bridged k, u.edges i);
        bridged = λ k a b c.
            let here = swap-cases j i k at ne in
            let above = swap-cases j i (j / 2) at ne in grind (arith, u.edges k, u.edges j);
      }

  pub sift_up-IsHeap :
      (n fuel i : ℕ) (at : ℕ → A)
      → 1 ≤ i
      → i ≤ n
      → i ≤ fuel
      → IsUp n i at
      → IsHeap n (sift_up key fuel i at)
  unfolding sift_up
  sift_up-IsHeap n zero i at low high le u = absurd (omega arith)
  sift_up-IsHeap n (suc fuel) i at low high le u =
      elim (Bool-cases (not (i == 1) && ltb (key (at i)) (key (at (i / 2))))) [
        | inl y ↦
            rw (y, sift_up)
              (sift_up-IsHeap n fuel (i / 2) (swap (i / 2) i at) (ground (arith, y)) (omega arith)
                (ground (arith, y))
                (swap-IsUp n i at (ground (arith, y)) high (ground (arith, y)) u))
        | inr m ↦ rw (m, sift_up) (λ k a b. grind (arith, m, u.edges k))
      ]
