-- ===== src/Util/AvlTree/Iterator.antt =====
-- `avl_tree::iterator`, `begin` and `end` in kernel/util/avl_tree.h.
use reaveros.Prelude.{Option, none, some, List, [], ◌∷◌}
use reaveros.Prelude.Int.{ℤ}
use reaveros.Util.AvlTree.{Tree, leaf, node, Frame, left_of, right_of}

-- `_element`: null, or an element with its children and its ancestors.
pub data Iterator {ℓ} (A : Type ℓ) : Type ℓ where
  null : Iterator A
  at : Tree A → A → ℤ → Tree A → List (Frame A) → Iterator A

module _ {ℓ} {A : Type ℓ} where
  -- `operator*`.
  abbrev pub element : Iterator A → Option A
  element null = none
  element (at l a b r p) = some a

  pub end : Iterator A
  end = null

  -- while (_element->get_left()) _element = _element->get_left();
  unfoldable pub leftmost : Tree A → A → ℤ → Tree A → List (Frame A) → Iterator A
  leftmost leaf a b r p = at leaf a b r p
  leftmost (node ll c d lr) a b r p = leftmost ll c d lr (left_of a b r ∷ p)

  unfoldable pub rightmost : Tree A → A → ℤ → Tree A → List (Frame A) → Iterator A
  rightmost l a b leaf p = at l a b leaf p
  rightmost l a b (node rl c d rr) p = rightmost rl c d rr (right_of l a b ∷ p)

  -- The second loop of `operator++`: up to the first parent that is reached from its left.
  unfoldable pub climb : Tree A → List (Frame A) → Iterator A
  climb t [] = null
  climb t (left_of a b r ∷ p) = at t a b r p
  climb t (right_of l a b ∷ p) = climb (node l a b t) p

  -- `operator++`.
  unfoldable pub increment : Iterator A → Option (Iterator A)
  unfolding leftmost climb
  increment null = none
  increment (at l a b leaf p) = some (climb (node l a b leaf) p)
  increment (at l a b (node rl c d rr) p) = some (leftmost rl c d rr (right_of l a b ∷ p))

  -- The second loop of `operator--`: it stops at the first element that is a right child.
  unfoldable pub climb_left : Tree A → A → ℤ → Tree A → List (Frame A) → Iterator A
  climb_left l a b r [] = null
  climb_left l a b r (left_of c d s ∷ p) = climb_left (node l a b r) c d s p
  climb_left l a b r (right_of s c d ∷ p) = at l a b r (right_of s c d ∷ p)

  -- `operator--`.
  unfoldable pub decrement : Iterator A → Option (Iterator A)
  unfolding rightmost climb_left
  decrement null = none
  decrement (at leaf a b r p) = some (climb_left leaf a b r p)
  decrement (at (node ll c d lr) a b r p) = some (rightmost ll c d lr (left_of a b r ∷ p))

  unfoldable pub begin : Tree A → Iterator A
  unfolding leftmost
  begin leaf = null
  begin (node l a b r) = leftmost l a b r []
