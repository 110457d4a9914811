-- ===== src/Util/TreeHeap/Bits.antt =====
-- A count of leading zero bits that can stand for the compiler's in runs of kernel/util/tree_heap.h.
use native.Mathlib.Nat.{two-pow-succ}
use reaveros.Prelude.{
  ℕ, zero, suc, ◌+◌, ◌-◌, ◌/◌, ◌^◌, ◌≤◌, ◌<◌, ◌≡◌, refl, ap, ◌∙◌, Bool-cases, ◌==◌, arith, inl, inr,
  if◌then◌else◌,
}
use reaveros.Util.TreeHeap.Find.{CountsZeroes}

-- The digits of a number in base 2, counted.
unfoldable pub bit_length : ℕ → ℕ → ℕ
bit_length zero n = 0
bit_length (suc fuel) n = let rest = bit_length fuel (n / 2) in if n == 0 then 0 else suc rest

abbrev pub leading_zeroes : ℕ → ℕ
leading_zeroes n = 64 - bit_length 64 n

record HasLength (fuel n l : ℕ) : Type 0 where
  most : l ≤ fuel
  some_bit : 1 ≤ n → 1 ≤ l
  no_bit : n ≡ 0 → l ≡ 0
  below : n < 2 ^ l
  above : 1 ≤ n → 2 ^ (l - 1) ≤ n

-- The highest bit of a number, from that of its half.
highest : {fuel : ℕ} (k n : ℕ) {p : ℕ} → p ≡ 2 ^ k → 1 ≤ n → HasLength fuel (n / 2) k → p ≤ n
highest k n e a h = elim (Bool-cases (n / 2 == 0)) [
  | inl y ↦
      let none_left : 2 ^ k ≡ 1 = ap (λ j. 2 ^ j) (h.no_bit (ground (arith, y))) in omega (arith, e)
  | inr m ↦
      let some_left : 1 ≤ n / 2 = ground (arith, m) in
      let twice : 2 ^ k ≡ 2 ^ (k - 1) + 2 ^ (k - 1) =
        ap (λ j. 2 ^ j) {x = k} {y = suc (k - 1)} (omega (arith, h.some_bit some_left))
        ∙ two-pow-succ (k - 1) in
      omega (arith, h.above some_left, twice, e)
]

bit_length-HasLength : (fuel n : ℕ) → n < 2 ^ fuel → HasLength fuel n (bit_length fuel n)
unfolding bit_length
bit_length-HasLength zero n lt = record {
  most = omega arith;
  some_bit = λ a. absurd (omega arith);
  no_bit = λ e. refl;
  below = lt;
  above = λ a. absurd (omega arith);
}
bit_length-HasLength (suc fuel) n lt = elim (Bool-cases (n == 0)) [
  | inl y ↦
      rw (y, bit_length)
        (record {
          most = omega arith;
          some_bit = λ a. ground (arith, y);
          no_bit = λ e. refl;
          below = ground (arith, y);
          above = λ a. absurd (ground (arith, y));
        })
  | inr m ↦
      let k = bit_length fuel (n / 2) in
      let h = bit_length-HasLength fuel (n / 2) (omega (arith, two-pow-succ fuel)) in
      rw (m, bit_length)
        (record {
          most = omega (arith, h.most);
          some_bit = λ a. omega arith;
          no_bit = λ e. absurd (ground (arith, m));
          below = omega (arith, h.below, two-pow-succ k);
          above = λ a. highest k n (ap (λ j. 2 ^ j) (omega arith)) a h;
        })
]

pub leading_zeroes-CountsZeroes : CountsZeroes leading_zeroes
leading_zeroes-CountsZeroes n pos top =
    let h = bit_length-HasLength 64 n top in
    let l = bit_length 64 n in
    let low : 63 - leading_zeroes n ≡ l - 1 = omega (arith, h.most, h.some_bit pos) in
    let high : 64 - leading_zeroes n ≡ l = omega (arith, h.most) in
    (omega (arith, h.some_bit pos), rw low (h.above pos), rw high (h.below))
