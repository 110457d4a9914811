-- ===== src/Util/AvlTree/Keyed.antt =====
-- The tree of kernel/util/avl_tree.h under a comparator that compares keys, as the handle table of a
-- process and the elements of a sparse VMO are.
use reaveros.Prelude.{
  ℕ, suc, length, ◌≡◌, refl, subst, Bool, true, Option, none, some, List, [], ◌∷◌, ◌++◌, arith, ltb,
  ◌==◌, if◌then◌else◌, All, All-right, Bool-cases, inl, inr,
}
use reaveros.Util.AvlTree.Order.{IsOrder, IsSorted, insert_sorted}
use reaveros.Util.AvlTree.Lookup.{IsCut, first_equal}

module _ {ℓ} {A : Type ℓ} (key : A → ℕ) where
  abbrev pub by_key : A → A → Bool
  by_key a b = ltb (key a) (key b)

  -- The comparisons of a key with an element.
  abbrev pub key_less : ℕ → A → Bool
  key_less k a = ltb k (key a)

  abbrev pub key_greater : ℕ → A → Bool
  key_greater k a = ltb (key a) k

  pub by_key-IsOrder : IsOrder by_key
  by_key-IsOrder = record {
    asym = λ a b h. ground arith;
    trans = λ a b c h k. ground arith;
    cotrans = λ a b c h k. ground arith;
  }

  pub key-IsCut : (k : ℕ) → IsCut by_key (key_less k) (key_greater k)
  key-IsCut k = record { above = λ a b h g. ground arith; below = λ a b h g. ground arith }

  -- The element with a key, in a list.
  abbrev pub with_key : ℕ → List A → Option A
  with_key k = first_equal (key_less k) (key_greater k)

  pub with_key-insert_sorted :
      (k : ℕ) (x : A) (xs : List A)
      → with_key (key x) xs ≡ none
      → with_key k (insert_sorted by_key x xs) ≡ (if key x == k then some x else with_key k xs)
  unfolding first_equal insert_sorted
  with_key-insert_sorted k x [] h = ground arith
  with_key-insert_sorted k x (a ∷ xs) h = ground (arith, with_key-insert_sorted k x xs)

  -- A key that is not there makes the list longer.
  pub length-insert_sorted :
      (x : A) (xs : List A)
      → with_key (key x) xs ≡ none
      → length (insert_sorted by_key x xs) ≡ suc (length xs)
  unfolding first_equal insert_sorted
  length-insert_sorted x [] h = refl
  length-insert_sorted x (a ∷ xs) h = ground (arith, length-insert_sorted x xs)

  pub key-with_key : (k : ℕ) (xs : List A) (a : A) → with_key k xs ≡ some a → key a ≡ k
  unfolding first_equal
  key-with_key k [] a e = cc
  key-with_key k (x ∷ xs) a e = ground (arith, key-with_key k xs a)

  with_key-above : (k : ℕ) (xs : List A) → All (λ x. ltb k (key x) ≡ true) xs → with_key k xs ≡ none
  unfolding first_equal
  with_key-above k [] h = refl
  with_key-above k (x ∷ xs) h = ground (arith, with_key-above k xs h.1)

  pub with_key-erase :
      (k : ℕ) (xs : List A) (a : A) (ys : List A)
      → IsSorted by_key (xs ++ (a ∷ ys))
      → with_key k (xs ++ ys) ≡ (if key a == k then none else with_key k (xs ++ (a ∷ ys)))
  unfolding first_equal
  with_key-erase k [] a ys s = elim (Bool-cases (key a == k)) [
    | inl e ↦
        rw e
          (with_key-above k ys (subst (λ n. All (λ y. ltb n (key y) ≡ true) ys) (eq_of a k e) s.0))
    | inr e ↦ ground arith
  ]
    where
      eq_of : (b : A) (n : ℕ) → (key b == n) ≡ true → key b ≡ n
      eq_of b n e = ground arith
  with_key-erase k (x ∷ xs) a ys s =
      ground (arith, with_key-erase k xs a ys s.1, (All-right _ xs (a ∷ ys) s.0).0)
