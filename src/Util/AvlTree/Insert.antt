-- ===== src/Util/AvlTree/Insert.antt =====
-- `insert` and `_insert_rebalance` in kernel/util/avl_tree.h. The new element comes from its
-- constructor: its links are null and its balance factor is 0.
use reaveros.Prelude.{Bool, true, false, Option, some, List, [], ◌∷◌, ◌>>=◌}
use reaveros.Prelude.Int.{pos, negsuc, is_pos, is_neg}
use reaveros.Util.AvlTree.{
  Tree, leaf, node, Frame, left_of, right_of, plug, get_balance_factor, rebalance_left,
  rebalance_right, rebalance_left_right, rebalance_right_left,
}

module _ {ℓ} {A : Type ℓ} where
  -- `parent` leans to the right already, and its right subtree `current` has grown.
  unfoldable pub grown_right : Tree A → A → Tree A → Option (Tree A)
  unfolding get_balance_factor rebalance_right_left rebalance_left
  grown_right l a current = do
    b ← get_balance_factor current
    elim (is_neg b) [ true ↦ rebalance_right_left l a current | false ↦ rebalance_left l a current ]

  unfoldable pub grown_left : Tree A → A → Tree A → Option (Tree A)
  unfolding get_balance_factor rebalance_left_right rebalance_right
  grown_left current a r = do
    b ← get_balance_factor current
    elim (is_pos b) [
      | true ↦ rebalance_left_right current a r
      | false ↦ rebalance_right current a r
    ]

  -- The loop over the parents of `current`, which has grown by one level.
  unfoldable pub insert_rebalance : Tree A → List (Frame A) → Option (Tree A)
  insert_rebalance current [] = some current
  insert_rebalance current (right_of l a b ∷ p) = elim (is_pos b) [
    | true ↦ grown_right l a current >>= λ t. some (plug t p)
    | false ↦ elim (is_neg b) [
      | true ↦ some (plug (node l a (pos 0) current) p)
      | false ↦ insert_rebalance (node l a (pos 1) current) p
    ]
  ]
  insert_rebalance current (left_of a b r ∷ p) = elim (is_neg b) [
    | true ↦ grown_left current a r >>= λ t. some (plug t p)
    | false ↦ elim (is_pos b) [
      | true ↦ some (plug (node current a (pos 0) r) p)
      | false ↦ insert_rebalance (node current a (negsuc 0) r) p
    ]
  ]

-- The tree, the element that the returned iterator points to, and whether it was inserted.
pub record Inserted {ℓ} (A : Type ℓ) : Type ℓ where
  pub root : Tree A
  pub position : A
  pub inserted : Bool

module _ {ℓ} {A : Type ℓ} (comp : A → A → Bool) (x : A) where
  -- The loop of `insert`, at a child: a missing one (a missing root too) is where `x` goes.
  unfoldable pub insert_from : Tree A → List (Frame A) → Option (Inserted A)
  insert_from leaf p = insert_rebalance (node leaf x (pos 0) leaf) p >>= λ t.
      some (record { root = t; position = x; inserted = true })
  insert_from (node l a b r) p = elim (comp x a) [
    | true ↦ insert_from l (left_of a b r ∷ p)
    | false ↦ elim (comp a x) [
      | true ↦ insert_from r (right_of l a b ∷ p)
      | false ↦ some (record { root = plug (node l a b r) p; position = a; inserted = false })
    ]
  ]

  unfoldable pub insert : Tree A → Option (Inserted A)
  insert t = insert_from t []
