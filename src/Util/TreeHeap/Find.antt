-- ===== src/Util/TreeHeap/Find.antt =====
-- The search for a place by `_get_nth` of kernel/util/tree_heap.h.
use native.Mathlib.Nat.{mul-div_cancel, two-pow-succ}
use reaveros.Prelude.{
  ℕ, zero, suc, ◌+◌, ◌-◌, ◌*◌, ◌/◌, ◌^◌, ◌≤◌, ◌<◌, ◌≡◌, sym, ap, ◌∙◌, Bool-cases, ltb, arith, inl,
  inr,
}
use reaveros.Util.TreeHeap.{descend, get_nth}

-- What the compiler's function counts: the bits above the highest one that is set.
abbrev pub CountsZeroes : (ℕ → ℕ) → Type 0
CountsZeroes f =
    (n : ℕ) → 1 ≤ n → n < 2 ^ 64 → (f n < 64) × (2 ^ (63 - f n) ≤ n) × (n < 2 ^ (64 - f n))

both_parts : (a b : ℕ) → a * b + a * b ≡ a * (b + b)
both_parts a b = omega arith

pow_plus : (n k : ℕ) → 2 ^ (n + k) ≡ 2 ^ k * 2 ^ n
pow_plus zero k = ap (λ a. 2 ^ a) {x = zero + k} {y = k} (omega arith) ∙ omega arith
pow_plus (suc n) k =
    ap (λ a. 2 ^ a) {x = suc n + k} {y = suc (n + k)} (omega arith)
    ∙ two-pow-succ (n + k)
    ∙ ap (λ a. a + a) (pow_plus n k)
    ∙ both_parts (2 ^ k) (2 ^ n)
    ∙ ap (λ a. 2 ^ k * a) (sym (two-pow-succ n))

pow_pos : (n : ℕ) → 0 < 2 ^ n
pow_pos zero = omega arith
pow_pos (suc n) = omega (arith, pow_pos n, two-pow-succ n)

pow_half : (n k : ℕ) → 2 ^ (n + k) / 2 ^ n ≡ 2 ^ k
pow_half n k = ap (λ a. a / 2 ^ n) (pow_plus n k) ∙ mul-div_cancel (2 ^ k) (pow_pos n)

left_place : (q K : ℕ) → q * (K + K) ≡ 2 * q * K
left_place q K = omega arith

right_place : (q K : ℕ) → K + q * (K + K) ≡ (2 * q + 1) * K
right_place q K = omega arith

-- The subtree at the place `2 ^ m + q`, which is searched for the place `nth` of its lowest level.
descend_lem :
    (k m L x nth c q : ℕ)
    → L ≡ 2 ^ (m + k)
    → c ≡ 2 ^ m + q
    → x ≡ q * 2 ^ k
    → x < nth
    → nth ≤ x + 2 ^ k
    → suc (descend k L (suc m) x nth c) ≡ L + nth
unfolding descend
descend_lem zero m L x nth c q eL ec ex lt le =
    let eL' : L ≡ 2 ^ m = eL ∙ ap (λ a. 2 ^ a) {x = m + zero} {y = m} (omega arith) in omega arith
descend_lem (suc k) m L x nth c q eL ec ex lt le =
    let eL' : L ≡ 2 ^ (suc m + k) = eL ∙ ap (λ a. 2 ^ a) (omega arith) in
    let y : L / 2 ^ suc m ≡ 2 ^ k = ap (λ a. a / 2 ^ suc m) eL' ∙ pow_half (suc m) k in
    let twice = two-pow-succ k in
    elim (Bool-cases (ltb (L / 2 ^ suc m + x) nth)) [
      | inl b ↦
          rw (b, descend)
            (descend_lem k (suc m) L (L / 2 ^ suc m + x) nth (2 * c + 1) (2 * q + 1) eL'
              (omega (arith, two-pow-succ m))
              (ap (λ a. a + x) y
                ∙ ap (λ a. 2 ^ k + a) (ex ∙ ap (λ a. q * a) twice)
                ∙ right_place q (2 ^ k))
              (ground (arith, b)) (omega (arith, y, twice)))
      | inr b ↦
          rw (b, descend)
            (descend_lem k (suc m) L x nth (2 * c) (2 * q) eL' (omega (arith, two-pow-succ m))
              (ex ∙ ap (λ a. q * a) twice ∙ left_place q (2 ^ k)) lt (ground (arith, y, b)))
    ]

-- `_get_nth` of a number from 1 on and below 2^64 is the place with that number, if the compiler's
-- function counts the leading zero bits: in a tree whose places are numbered level by
-- level, it goes down to the left or to the right as the numbers demand.
pub get_nth_lem :
    (leading_zeroes : ℕ → ℕ) (nth : ℕ)
    → CountsZeroes leading_zeroes
    → 1 ≤ nth
    → nth < 2 ^ 64
    → get_nth leading_zeroes nth ≡ nth
unfolding get_nth
get_nth_lem f nth counts pos top =
    let c = counts nth pos top in
    let level = 64 - f nth in
    let L = 2 ^ (level - 1) in
    let eL : L ≡ 2 ^ (63 - f nth) =
      ap (λ a. 2 ^ a) {x = level - 1} {y = 63 - f nth} (omega (arith, c.0)) in
    let twice : 2 ^ level ≡ L + L =
      ap (λ a. 2 ^ a) {x = level} {y = suc (level - 1)} (omega (arith, c.0))
      ∙ two-pow-succ (level - 1) in
    let positive = pow_pos (level - 1) in
    let r =
      descend_lem (level - 1) 0 L 0 (nth - (L - 1)) 1 0
        (ap (λ a. 2 ^ a) {x = level - 1} {y = 0 + (level - 1)} (omega arith)) (omega arith)
        (omega arith) (omega (arith, c.1, eL, positive)) (omega (arith, c.2, twice, positive)) in
    omega (arith, r, c.1, eL, positive)
