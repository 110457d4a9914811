-- ===== src/Util/AvlTree/Check.antt =====
-- `check_invariants` of kernel/util/avl_tree.h, which the tests of the repository call after each
-- operation. Its checks of the parent links have no counterpart: a location has its parents.
use reaveros.Prelude.{
  ℕ, ◌+◌, ◌≡◌, refl, Bool, true, false, Option, none, some, List, ◌∷◌, ◌++◌, arith, ltb, ◌==◌, ◌&&◌,
  if◌then◌else◌, All-right,
}
use reaveros.Prelude.Int.{ℤ, pos_part, neg_part}
use reaveros.Util.AvlTree.{Tree, leaf, node}
use reaveros.Util.AvlTree.Elements.{elements}
use reaveros.Util.AvlTree.Balance.{height, IsBalanced}
use reaveros.Util.AvlTree.Order.{IsSorted, IsSorted-left, IsSorted-right, IsSorted-mid}

-- `reason`.
pub data Reason : Type 0 where
  no_reason factor_differs factor_out_of_range child_misplaced : Reason

-- `invariant_check_result`.
pub record CheckResult {ℓ} (A : Type ℓ) : Type ℓ where
  pub correct : Bool
  pub reason : Reason
  pub offending_node : Option A

-- `bf == right_depth - left_depth`, and `bf` within -1 and 1.
abbrev factor_matches : ℤ → ℕ → ℕ → Bool
factor_matches b hl hr = (pos_part b + hl) == (neg_part b + hr)

abbrev factor_in_range : ℤ → Bool
factor_in_range b = ltb (pos_part b) 2 && ltb (neg_part b) 2

module _ {ℓ} {A : Type ℓ} where
  abbrev passed : CheckResult A
  passed = record { correct = true; reason = no_reason; offending_node = none }

  abbrev failed : Reason → A → CheckResult A
  failed reason a = record { correct = false; reason = reason; offending_node = some a }

  module _ (comp : A → A → Bool) where
    -- The comparison of an element with a child of its own.
    abbrev left_lesser : Tree A → A → Bool
    left_lesser leaf a = true
    left_lesser (node l c b r) a = comp c a

    abbrev right_greater : A → Tree A → Bool
    right_greater a leaf = true
    right_greater a (node l c b r) = comp a c

    pub check_invariants : Tree A → CheckResult A
    check_invariants leaf = passed
    check_invariants (node l a b r) =
        let left = check_invariants l in
        let right = check_invariants r in
        if factor_matches b (height l) (height r)
        then if factor_in_range b
          then if left_lesser l a
            then if left.correct
              then if right_greater a r
                then if right.correct then passed else right
                else failed child_misplaced a
              else left
            else failed child_misplaced a
          else failed factor_out_of_range a
        else failed factor_differs a

    check_invariants-IsBalanced : (t : Tree A) → (check_invariants t).correct ≡ true → IsBalanced t
    unfolding check_invariants
    check_invariants-IsBalanced leaf e = tt
    check_invariants-IsBalanced (node l a b r) e =
        ground (arith, check_invariants-IsBalanced l, check_invariants-IsBalanced r)

    left_lesser-IsSorted :
        (l : Tree A) (a : A) (ys : List A)
        → IsSorted comp (elements l ++ (a ∷ ys))
        → left_lesser l a ≡ true
    left_lesser-IsSorted leaf a ys s = refl
    left_lesser-IsSorted (node l c b r) a ys s =
        (All-right _ (elements l) (c ∷ elements r)
          (IsSorted-mid comp (elements (node l c b r)) a ys s)).0

    right_greater-IsSorted :
        (a : A) (r : Tree A) → IsSorted comp (a ∷ elements r) → right_greater a r ≡ true
    right_greater-IsSorted a leaf s = refl
    right_greater-IsSorted a (node l c b r) s = (All-right _ (elements l) (c ∷ elements r) s.0).0

    check_invariants-passes :
        (t : Tree A)
        → IsBalanced t
        → IsSorted comp (elements t)
        → (check_invariants t).correct ≡ true
    unfolding check_invariants
    check_invariants-passes leaf i s = refl
    check_invariants-passes (node l a b r) i s = ground (
      arith,
      left_lesser-IsSorted l a (elements r) s,
      right_greater-IsSorted a r (IsSorted-right comp (elements l) (a ∷ elements r) s),
      check_invariants-passes l i.0 (IsSorted-left comp (elements l) (a ∷ elements r) s),
      check_invariants-passes r i.1 (IsSorted-right comp (elements l) (a ∷ elements r) s).1,
    )

    -- The check passes on every balanced and sorted tree, and what it passes is balanced.
    pub check_invariants_lem :
        (t : Tree A)
        → (IsBalanced t × IsSorted comp (elements t) → (check_invariants t).correct ≡ true)
          × ((check_invariants t).correct ≡ true → IsBalanced t)
    check_invariants_lem t = (λ h. check_invariants-passes t h.0 h.1, check_invariants-IsBalanced t)
