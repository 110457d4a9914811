-- ===== src/Util/AvlTree/Search.antt =====
-- `find`, `lower_bound` and `upper_bound` in kernel/util/avl_tree.h. For a value, `less a` is
-- `_comp(value, a)` and `greater a` is `_comp(a, value)`.
use reaveros.Prelude.{Bool, true, false, Option, some, List, [], ◌∷◌}
use reaveros.Util.AvlTree.{Tree, leaf, node, Frame, left_of, right_of}
use reaveros.Util.AvlTree.Iterator.{Iterator, null, at, increment}

module _ {ℓ} {A : Type ℓ} (less greater : A → Bool) where
  -- The loop of `find`. A missing child and a missing root both give `end()`.
  unfoldable pub find_from : Tree A → List (Frame A) → Iterator A
  find_from leaf p = null
  find_from (node l a b r) p = elim (less a) [
    | true ↦ find_from l (left_of a b r ∷ p)
    | false ↦ elim (greater a) [ true ↦ find_from r (right_of l a b ∷ p) | false ↦ at l a b r p ]
  ]

  unfoldable pub find : Tree A → Iterator A
  unfolding find_from
  find t = find_from t []

  -- The branch of `lower_bound` at an element below the value that has no right child: the answer
  -- is its parent, if it hangs on the left of it, and `end()` otherwise.
  abbrev pub beyond : Tree A → List (Frame A) → Iterator A
  beyond t [] = null
  beyond t (left_of a b r ∷ p) = at t a b r p
  beyond t (right_of l a b ∷ p) = null

  -- The loop of `lower_bound`: `missing` is the answer if the child that it turns to is not there.
  unfoldable pub lower_bound_from : Iterator A → Tree A → List (Frame A) → Iterator A
  lower_bound_from missing leaf p = missing
  lower_bound_from missing (node l a b r) p = elim (less a) [
    | true ↦ lower_bound_from (at l a b r p) l (left_of a b r ∷ p)
    | false ↦ elim (greater a) [
      | true ↦ lower_bound_from (beyond (node l a b r) p) r (right_of l a b ∷ p)
      | false ↦ at l a b r p
    ]
  ]

  unfoldable pub lower_bound : Tree A → Iterator A
  unfolding lower_bound_from
  lower_bound t = lower_bound_from null t []

  -- The value's own element is stepped over.
  abbrev pub skip : Iterator A → Option (Iterator A)
  skip null = some null
  skip (at l a b r p) = elim (less a) [
    | true ↦ some (at l a b r p)
    | false ↦ elim (greater a) [ true ↦ some (at l a b r p) | false ↦ increment (at l a b r p) ]
  ]

  unfoldable pub upper_bound : Tree A → Option (Iterator A)
  unfolding lower_bound
  upper_bound t = skip (lower_bound t)
