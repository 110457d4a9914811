-- ===== src/Rosestd/StringView.antt =====
-- `basic_string_view<char>` of libraries/rosestd/include/string_view, and the operations of
-- `char_traits<char>` in libraries/rosestd/include/__char_traits that it uses.
use reaveros.Prelude.{
  ℕ, zero, suc, ◌+◌, ◌%◌, ◌≤◌, ◌<◌, ◌≡◌, ◌≢◌, refl, sym, ap, ◌∙◌, Bool, Bool-cases, true, false,
  List, [], ◌∷◌, arith, ltb, ◌==◌, eq_of_==, ne_of_==, inl, inr, if◌then◌else◌,
}
use reaveros.Prelude.Int.{ℤ, pos, negsuc, is_zero}

-- `__data` and `__size`.
pub record StringView : Type 0 where
  pub data_pointer : ℕ
  pub size : ℕ

-- A `char` is signed.
abbrev signed_lt : ℕ → ℕ → Bool
signed_lt a b = ltb ((a + 128) % 256) ((b + 128) % 256)

-- `char_traits<char>::compare`; the arguments are what stands at `__s1[__i]` and `__s2[__i]`, the
-- index, and the rounds left.
unfoldable pub compare_from : (ℕ → ℕ) → (ℕ → ℕ) → ℕ → ℕ → ℤ
compare_from s1 s2 i zero = pos 0
compare_from s1 s2 i (suc n) = elim (s1 i == s2 i) [
  | true ↦ compare_from s1 s2 (suc i) n
  | false ↦ if signed_lt (s1 i) (s2 i) then negsuc 0 else pos 1
]

-- `!!__size - !!__s.__size`.
abbrev pub compare_sizes : ℕ → ℕ → ℤ
compare_sizes zero zero = pos 0
compare_sizes zero (suc m) = negsuc 0
compare_sizes (suc n) zero = pos 1
compare_sizes (suc n) (suc m) = pos 0

-- `compare`, of two views of the sizes `n` and `m`.
unfoldable pub compare_views : (ℕ → ℕ) → ℕ → (ℕ → ℕ) → ℕ → ℤ
compare_views s1 n s2 m =
    let result = compare_from s1 s2 0 (if ltb n m then n else m) in
    if is_zero result then compare_sizes n m else result

-- `operator==`.
unfoldable pub equal_views : (ℕ → ℕ) → ℕ → (ℕ → ℕ) → ℕ → Bool
equal_views s1 n s2 m = is_zero (compare_views s1 n s2 m)

-- What a view shows of the memory.
abbrev pub characters : (ℕ → ℕ) → StringView → ℕ → ℕ
characters mem v i = mem (v.data_pointer + i)

-- The characters of a literal.
abbrev pub literal : List ℕ → ℕ → ℕ
literal [] i = 0
literal (c ∷ cs) zero = c
literal (c ∷ cs) (suc i) = literal cs i

-- The first `n` characters agree.
abbrev pub Agrees : (ℕ → ℕ) → (ℕ → ℕ) → ℕ → Type 0
Agrees s1 s2 n = (i : ℕ) → i < n → s1 i ≡ s2 i

abbrev AgreesFrom : (ℕ → ℕ) → (ℕ → ℕ) → ℕ → ℕ → Type 0
AgreesFrom s1 s2 i n = (k : ℕ) → i ≤ k → k < i + n → s1 k ≡ s2 k

AgreesFrom-suc :
    (s1 s2 : ℕ → ℕ) (i n : ℕ)
    → s1 i ≡ s2 i
    → AgreesFrom s1 s2 (suc i) n
    → AgreesFrom s1 s2 i (suc n)
AgreesFrom-suc s1 s2 i n e h k le lt = elim (Bool-cases (i == k)) [
  | inl z ↦ ap s1 (sym (eq_of_== i k z)) ∙ e ∙ ap s2 (eq_of_== i k z)
  | inr z ↦ h k (ground (arith, ne_of_== i k z)) (omega arith)
]

compare_from_lem :
    (s1 s2 : ℕ → ℕ) (i n : ℕ)
    → (is_zero (compare_from s1 s2 i n) ≡ true → AgreesFrom s1 s2 i n)
      × (AgreesFrom s1 s2 i n → is_zero (compare_from s1 s2 i n) ≡ true)
unfolding compare_from
compare_from_lem s1 s2 i zero = (λ e k le lt. absurd (omega arith), λ h. refl)
compare_from_lem s1 s2 i (suc n) = elim (Bool-cases (s1 i == s2 i)) [
  | inl e ↦
      let (to, from) = compare_from_lem s1 s2 (suc i) n in
      rw (e, compare_from)
        (
          λ z. AgreesFrom-suc s1 s2 i n (eq_of_== (s1 i) (s2 i) e) (to z),
          λ h. from (λ k le lt. h k (omega arith) (omega arith)),
        )
  | inr e ↦
      rw (e, compare_from)
        (
          λ z. absurd (nonzero (signed_lt (s1 i) (s2 i)) z),
          λ h. absurd (ne_of_== (s1 i) (s2 i) e (h i (omega arith) (omega arith))),
        )
]
  where
    nonzero : (b : Bool) → is_zero (if b then negsuc 0 else pos 1) ≢ true
    nonzero true e = cc
    nonzero false e = cc

either_zero :
    (r z : ℤ)
    → (is_zero (if is_zero r then z else r) ≡ true → (is_zero r ≡ true) × (z ≡ pos 0))
      × (is_zero r ≡ true → z ≡ pos 0 → is_zero (if is_zero r then z else r) ≡ true)
either_zero r z = (λ e. ground arith, λ e f. ground arith)

-- Two views are equal exactly if they agree on the size of the shorter one and both or neither of
-- them are empty: a view that is not empty is equal to every longer one that
-- it begins.
pub equal_views_lem :
    (s1 s2 : ℕ → ℕ) (n m : ℕ)
    → let k : ℕ = if ltb n m then n else m in
      (equal_views s1 n s2 m ≡ true → Agrees s1 s2 k × (compare_sizes n m ≡ pos 0))
      × (Agrees s1 s2 k → compare_sizes n m ≡ pos 0 → equal_views s1 n s2 m ≡ true)
unfolding equal_views compare_views
equal_views_lem s1 s2 n m =
    let k : ℕ = if ltb n m then n else m in
    let (to, from) = compare_from_lem s1 s2 0 k in
    let (parts, whole) = either_zero (compare_from s1 s2 0 k) (compare_sizes n m) in
    (
      λ e. (λ i lt. to (parts e).0 i (omega arith) (omega arith), (parts e).1),
      λ h z. whole (from (λ i le lt. h i (omega arith))) z,
    )
