-- ===== src/Util/AvlTree/Lookup.antt =====
-- `find` and `lower_bound` of kernel/util/avl_tree.h against sorted lists.
use reaveros.Prelude.{
  ◌≡◌, refl, sym, ◌∙◌, Bool, true, false, Option, none, some, List, [], ◌∷◌, ◌++◌, arith, All,
  All-imp, Bool-cases, inl, inr,
}
use reaveros.Util.AvlTree.{Tree, leaf, node, Frame, left_of, right_of, plug}
use reaveros.Util.AvlTree.Iterator.{Iterator, null, at, element}
use reaveros.Util.AvlTree.Search.{find_from, find}
use reaveros.Util.AvlTree.Elements.{elements}
use reaveros.Util.AvlTree.Order.{IsSorted, IsSorted-left, IsSorted-right, IsSorted-mid}

-- The value cuts the order in two: it is less than all above an element that it is less than, and
-- greater than all below an element that it is not less than.
pub record IsCut {ℓ} {A : Type ℓ} (comp : A → A → Bool) (less greater : A → Bool) : Type ℓ where
  pub above : (a b : A) → less a ≡ true → comp a b ≡ true → less b ≡ true
  pub below : (a b : A) → less b ≡ false → comp a b ≡ true → greater a ≡ true

-- The iterator is null, or its element with its children and parents makes up the tree.
abbrev pub StandsIn {ℓ} : {A : Type ℓ} → Tree A → Iterator A → Type ℓ
StandsIn t null = Unit
StandsIn t (at l a b r p) = plug (node l a b r) p ≡ t

module _ {ℓ} {A : Type ℓ} (less greater : A → Bool) where
  -- The first element that is neither greater nor less than the value.
  unfoldable pub first_equal : List A → Option A
  first_equal [] = none
  first_equal (a ∷ xs) = elim (less a) [
    | true ↦ first_equal xs
    | false ↦ elim (greater a) [ true ↦ first_equal xs | false ↦ some a ]
  ]

  first_equal-nil : first_equal [] ≡ none
  unfolding first_equal
  first_equal-nil = refl

  first_equal-greater :
      (a : A) (xs : List A)
      → less a ≡ false
      → greater a ≡ true
      → first_equal (a ∷ xs) ≡ first_equal xs
  unfolding first_equal
  first_equal-greater a xs e g = rw (e, first_equal) (rw (g, first_equal))

  first_equal-above :
      (xs ys : List A) → All (λ a. less a ≡ true) ys → first_equal (xs ++ ys) ≡ first_equal xs
  unfolding first_equal
  first_equal-above [] [] h = refl
  first_equal-above [] (y ∷ ys) h = rw (h.0, first_equal) (first_equal-above [] ys h.1)
  first_equal-above (x ∷ xs) ys h = ground (arith, first_equal-above xs ys h)

  first_equal-below :
      (xs ys : List A) → All (λ a. greater a ≡ true) xs → first_equal (xs ++ ys) ≡ first_equal ys
  unfolding first_equal
  first_equal-below [] ys h = refl
  first_equal-below (x ∷ xs) ys h = ground (arith, first_equal-below xs ys h.1)

  first_equal-mid :
      (xs : List A) (a : A) (ys : List A)
      → All (λ x. greater x ≡ true) xs
      → less a ≡ false
      → greater a ≡ false
      → first_equal (xs ++ (a ∷ ys)) ≡ some a
  unfolding first_equal
  first_equal-mid [] a ys h e g = rw (e, first_equal) (rw (g, first_equal))
  first_equal-mid (x ∷ xs) a ys h e g = ground (arith, first_equal-mid xs a ys h.1 e g)

  module _ (comp : A → A → Bool) (cut : IsCut comp less greater) where
    greater-below :
        (xs : List A) (a : A) (ys : List A)
        → IsSorted comp (xs ++ (a ∷ ys))
        → less a ≡ false
        → All (λ x. greater x ≡ true) xs
    greater-below xs a ys s e = All-imp (λ x. cut.below x a e) xs (IsSorted-mid comp xs a ys s)

    less-above :
        (xs : List A) (a : A) (ys : List A)
        → IsSorted comp (xs ++ (a ∷ ys))
        → less a ≡ true
        → All (λ x. less x ≡ true) (a ∷ ys)
    less-above xs a ys s e =
        (e, All-imp (λ y. cut.above a y e) ys (IsSorted-right comp xs (a ∷ ys) s).0)

    element-find_from :
        (t : Tree A) (p : List (Frame A))
        → IsSorted comp (elements t)
        → element (find_from less greater t p) ≡ first_equal (elements t)
    unfolding find_from
    element-find_from leaf p s = sym first_equal-nil
    element-find_from (node l a b r) p s = elim (Bool-cases (less a)) [
      | inl e ↦
          rw (e, find_from)
            (element-find_from l (left_of a b r ∷ p)
                (IsSorted-left comp (elements l) (a ∷ elements r) s)
              ∙ sym (
                  first_equal-above (elements l) (a ∷ elements r)
                    (less-above (elements l) a (elements r) s e)))
      | inr e ↦ elim (Bool-cases (greater a)) [
        | inl g ↦
            rw (e, find_from)
              (rw (g, find_from)
                (element-find_from r (right_of l a b ∷ p)
                    (IsSorted-right comp (elements l) (a ∷ elements r) s).1
                  ∙ sym (
                      first_equal-below (elements l) (a ∷ elements r)
                        (greater-below (elements l) a (elements r) s e)
                      ∙ first_equal-greater a (elements r) e g)))
        | inr g ↦
            rw (e, find_from)
              (rw (g, find_from)
                (sym (
                  first_equal-mid (elements l) a (elements r)
                    (greater-below (elements l) a (elements r) s e) e g)))
      ]
    ]

    -- On a sorted tree `find` reaches the first element that is neither less nor greater than the
    -- value, and returns `end()` exactly where there is none.
    pub element-find :
        (t : Tree A)
        → IsSorted comp (elements t)
        → element (find less greater t) ≡ first_equal (elements t)
    unfolding find
    element-find t s = element-find_from t [] s

  -- The iterator that `find` returns stands in the tree that was searched.
  find_from-StandsIn :
      (t : Tree A) (p : List (Frame A)) → StandsIn (plug t p) (find_from less greater t p)
  unfolding find_from plug
  find_from-StandsIn leaf p = tt
  find_from-StandsIn (node l a b r) p = elim (Bool-cases (less a)) [
    | inl e ↦ rw (e, find_from) (find_from-StandsIn l (left_of a b r ∷ p))
    | inr e ↦ elim (Bool-cases (greater a)) [
      | inl g ↦ rw (e, find_from) (rw (g, find_from) (find_from-StandsIn r (right_of l a b ∷ p)))
      | inr g ↦ rw (e, find_from) (rw (g, find_from) refl)
    ]
  ]

  pub find-StandsIn : (t : Tree A) → StandsIn t (find less greater t)
  unfolding find plug
  find-StandsIn t = find_from-StandsIn t []
