-- ===== src/Util/AvlTree.antt =====
-- kernel/util/avl_tree.h: the intrusive AVL tree. An element pointer is a location: the subtree
-- below the element, and the list of its ancestors, nearest first, which is what the chain of
-- `tree_parent` links spells out. A `while` loop over parents is a recursion on that list. `none`
-- stands for the dereference of a null pointer.
pub mod Links
pub mod Iterator
pub mod Search
pub mod Insert
pub mod Erase
pub mod Elements
pub mod Balance
pub mod Order
pub mod Lookup
pub mod Traversal
pub mod Container
pub mod Keyed
pub mod Check
pub mod Destroy
pub mod Tests
use reaveros.Prelude.{Option, none, some, List, [], ◌∷◌, if◌then◌else◌, ◌>>=◌}
use reaveros.Prelude.Int.{ℤ, pos, negsuc, is_pos, is_neg, is_zero}

-- An element with its left child (`prev`), its balance factor, and its right child (`next`).
pub data Tree {ℓ} (A : Type ℓ) : Type ℓ where
  leaf : Tree A
  node : Tree A → A → ℤ → Tree A → Tree A

-- A parent, with the side on which the child hangs.
pub data Frame {ℓ} (A : Type ℓ) : Type ℓ where
  left_of : A → ℤ → Tree A → Frame A
  right_of : Tree A → A → ℤ → Frame A

module _ {ℓ} {A : Type ℓ} where
  -- The whole tree, seen from a location.
  unfoldable pub plug : Tree A → List (Frame A) → Tree A
  plug t [] = t
  plug t (left_of a b r ∷ p) = plug (node t a b r) p
  plug t (right_of l a b ∷ p) = plug (node l a b t) p

  -- `get_balance_factor` through a pointer.
  unfoldable pub get_balance_factor : Tree A → Option ℤ
  get_balance_factor leaf = none
  get_balance_factor (node l a b r) = some b

  unfoldable pub set_balance_factor : ℤ → Tree A → Option (Tree A)
  set_balance_factor c leaf = none
  set_balance_factor c (node l a b r) = some (node l a c r)

  unfoldable pub get_left : Tree A → Option (Tree A)
  get_left leaf = none
  get_left (node l a b r) = some l

  unfoldable pub get_right : Tree A → Option (Tree A)
  get_right leaf = none
  get_right (node l a b r) = some r

  -- The rotations relink three nodes; the parent's link is the location's.
  unfoldable pub rotate_left : Tree A → Option (Tree A)
  rotate_left (node l a b (node rl c d rr)) = some (node (node l a b rl) c d rr)
  rotate_left _ = none

  unfoldable pub rotate_right : Tree A → Option (Tree A)
  rotate_right (node (node ll c d lr) a b r) = some (node ll c d (node lr a b r))
  rotate_right _ = none

  -- The arguments are the fields of `node`.
  unfoldable pub rebalance_left : Tree A → A → Tree A → Option (Tree A)
  unfolding get_balance_factor set_balance_factor rotate_left
  rebalance_left l a r = do
    b ← get_balance_factor r
    right ← set_balance_factor (if is_zero b then negsuc 0 else pos 0) r
    rotate_left (node l a (if is_zero b then pos 1 else pos 0) right)

  unfoldable pub rebalance_right : Tree A → A → Tree A → Option (Tree A)
  unfolding get_balance_factor set_balance_factor rotate_right
  rebalance_right l a r = do
    b ← get_balance_factor l
    left ← set_balance_factor (if is_zero b then pos 1 else pos 0) l
    rotate_right (node left a (if is_zero b then negsuc 0 else pos 0) r)

  unfoldable pub rebalance_left_right : Tree A → A → Tree A → Option (Tree A)
  unfolding get_right get_balance_factor set_balance_factor rotate_left rotate_right
  rebalance_left_right l a r = do
    middle ← get_right l
    b ← get_balance_factor middle
    left ← set_balance_factor (if is_pos b then negsuc 0 else pos 0) l
    left' ← rotate_left left
    top ← rotate_right (node left' a (if is_neg b then pos 1 else pos 0) r)
    set_balance_factor (pos 0) top

  unfoldable pub rebalance_right_left : Tree A → A → Tree A → Option (Tree A)
  unfolding get_left get_balance_factor set_balance_factor rotate_left rotate_right
  rebalance_right_left l a r = do
    middle ← get_left r
    b ← get_balance_factor middle
    right ← set_balance_factor (if is_neg b then pos 1 else pos 0) r
    right' ← rotate_right right
    top ← rotate_left (node l a (if is_pos b then negsuc 0 else pos 0) right')
    set_balance_factor (pos 0) top
