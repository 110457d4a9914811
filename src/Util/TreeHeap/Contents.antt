-- ===== src/Util/TreeHeap/Contents.antt =====
-- The elements of a tree of kernel/util/tree_heap.h, counted: for every test, how many of the places 1
-- to `n` hold an element that passes it.
use reaveros.Prelude.{
  ℕ, zero, suc, ◌+◌, ◌/◌, ◌≤◌, ◌<◌, ◌≡◌, ◌≢◌, refl, sym, ap, ◌∙◌, Bool, Bool-cases, ltb, ◌&&◌, not,
  ◌==◌, arith, inl, inr, if◌then◌else◌, ==-refl, ==-false, ne_of_==,
}
use reaveros.Util.TreeHeap.{put, swap, sift_up, best_of, sift_down}
use reaveros.Util.TreeHeap.Order.{same-cases}
use reaveros.Util.TreeHeap.Down.{best_of_lem}

abbrev pub bit : Bool → ℕ
bit b = if b then 1 else 0

abbrev pub count {ℓ} : {A : Type ℓ} → (A → Bool) → (ℕ → A) → ℕ → ℕ
count f at zero = 0
count f at (suc n) = bit (f (at (suc n))) + count f at n

module _ {ℓ} {A : Type ℓ} (key : A → ℕ) (f : A → Bool) where
  put_same : (i : ℕ) (e : A) (at : ℕ → A) → put i e at i ≡ e
  put_same i e at = rw (==-refl i i refl) refl

  put_other : (i j : ℕ) (e : A) (at : ℕ → A) → i ≢ j → put i e at j ≡ at j
  put_other i j e at n = rw (==-false i j n) refl

  pub count-put_out : (i n : ℕ) (e : A) (at : ℕ → A) → n < i → count f (put i e at) n ≡ count f at n
  count-put_out i zero e at lt = refl
  count-put_out i (suc n) e at lt =
      let here : put i e at (suc n) ≡ at (suc n) = put_other i (suc n) e at (λ q. omega arith) in
      rw here (ap (λ c. bit (f (at (suc n))) + c) (count-put_out i n e at (omega arith)))

  pub count-put :
      (i n : ℕ) (e : A) (at : ℕ → A)
      → 1 ≤ i
      → i ≤ n
      → count f (put i e at) n + bit (f (at i)) ≡ count f at n + bit (f e)
  count-put i zero e at low high = absurd (omega arith)
  count-put i (suc n) e at low high = elim (same-cases key i (suc n)) [
    | inl q ↦
        let here : put i e at (suc n) ≡ e = ap (put i e at) (sym q) ∙ put_same i e at in
        let old : bit (f (at i)) ≡ bit (f (at (suc n))) = ap (λ j. bit (f (at j))) q in
        let rest = count-put_out i n e at (omega arith) in rw here (omega (arith, old, rest))
    | inr q ↦
        let here : put i e at (suc n) ≡ at (suc n) = put_other i (suc n) e at q in
        let rest = count-put i n e at low (omega arith) in rw here (omega (arith, rest))
  ]

  pub count-swap :
      (j k n : ℕ) (at : ℕ → A)
      → 1 ≤ j
      → j ≤ n
      → 1 ≤ k
      → k ≤ n
      → j ≢ k
      → count f (swap j k at) n ≡ count f at n
  count-swap j k n at jl jh kl kh ne =
      let g = put k (at j) at in
      let inner = count-put k n (at j) at kl kh in
      let outer = count-put j n (at k) g jl jh in
      let same : bit (f (g j)) ≡ bit (f (at j)) =
        ap (λ a. bit (f a)) (put_other k j (at j) at (λ q. ne (sym q))) in
      omega (arith, inner, outer, same)

  pub count-sift_up :
      (n fuel i : ℕ) (at : ℕ → A) → 1 ≤ i → i ≤ n → count f (sift_up key fuel i at) n ≡ count f at n
  unfolding sift_up
  count-sift_up n zero i at low high = refl
  count-sift_up n (suc fuel) i at low high =
      elim (Bool-cases (not (i == 1) && ltb (key (at i)) (key (at (i / 2))))) [
        | inl y ↦
            rw (y, sift_up)
              (count-sift_up n fuel (i / 2) (swap (i / 2) i at) (ground (arith, y)) (omega arith)
                ∙ count-swap (i / 2) i n at (ground (arith, y)) (omega arith) low high
                    (λ q. ground (arith, y)))
        | inr m ↦ rw (m, sift_up) refl
      ]

  pub count-sift_down :
      (n fuel i : ℕ) (at : ℕ → A)
      → 1 ≤ i
      → i ≤ n
      → count f (sift_down key fuel n i at) n ≡ count f at n
  unfolding sift_down
  count-sift_down n zero i at low high = refl
  count-sift_down n (suc fuel) i at low high =
      let b = best_of key n at i in
      elim (Bool-cases (b == i)) [
        | inl y ↦ rw (y, sift_down) refl
        | inr m ↦
            rw (m, sift_down)
              (elim (best_of_lem key n i at low).place [
                | inl e ↦ absurd (ne_of_== b i m e)
                | inr p ↦
                    count-sift_down n fuel b (swap i b at) (omega (arith, p.2)) (p.1)
                    ∙ count-swap i b n at low high (omega (arith, p.2)) (p.1)
                        (λ q. omega (arith, p.2))
              ])
      ]
