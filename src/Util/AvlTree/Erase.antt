-- ===== src/Util/AvlTree/Erase.antt =====
-- `erase` and `_erase_rebalance` in kernel/util/avl_tree.h. (`Traits::create` takes the element back
-- and destroys it; the count of elements is kept by `AvlSet`.)
use reaveros.Prelude.{true, false, Option, some, List, [], ◌∷◌, ◌++◌, ◌>>=◌}
use reaveros.Prelude.Int.{ℤ, pos, negsuc, pred_ℤ, is_pos, is_neg, is_zero}
use reaveros.Util.AvlTree.{
  Tree, leaf, node, Frame, left_of, right_of, plug, get_balance_factor, rebalance_right,
}
use reaveros.Util.AvlTree.Insert.{grown_left, grown_right}

module _ {ℓ} {A : Type ℓ} where
  -- The loop over the parents of a subtree that has shrunk by one level: `shortened_left` tells the
  -- side on which it hangs. A rotation ends the loop if the sibling was balanced.
  unfoldable pub erase_rebalance : Tree A → List (Frame A) → Option (Tree A)
  erase_rebalance t [] = some t
  erase_rebalance t (left_of a b r ∷ p) = elim (is_pos b) [
    | true ↦ do
      c ← get_balance_factor r
      u ← grown_right t a r
      elim (is_zero c) [ true ↦ some (plug u p) | false ↦ erase_rebalance u p ]
    | false ↦ elim (is_zero b) [
      | true ↦ some (plug (node t a (pos 1) r) p)
      | false ↦ erase_rebalance (node t a (pos 0) r) p
    ]
  ]
  erase_rebalance t (right_of l a b ∷ p) = elim (is_neg b) [
    | true ↦ do
      c ← get_balance_factor l
      u ← grown_left l a t
      elim (is_zero c) [ true ↦ some (plug u p) | false ↦ erase_rebalance u p ]
    | false ↦ elim (is_zero b) [
      | true ↦ some (plug (node l a (negsuc 0) t) p)
      | false ↦ erase_rebalance (node l a (pos 0) t) p
    ]
  ]

  -- The right child takes the place of an element that has both children, and has no left one of
  -- its own: `l` and `b` are the element's, `a` and `r` the child's.
  unfoldable pub replace_by_right : Tree A → A → ℤ → Tree A → List (Frame A) → Option (Tree A)
  replace_by_right l a b r [] = elim (is_neg b) [
    | true ↦ rebalance_right l a r
    | false ↦ some (node l a (pred_ℤ b) r)
  ]
  replace_by_right l a b r (f ∷ p) = erase_rebalance r (right_of l a b ∷ f ∷ p)

  -- The leftmost element below `next` takes the element's place: `q` are the parents of `next` up to
  -- the right child of the element, whose other fields are `l`, `b` and its parents `p`.
  unfoldable pub replace_by_next :
      Tree A → ℤ → List (Frame A) → Tree A → A → ℤ → Tree A → List (Frame A) → Option (Tree A)
  replace_by_next l b p leaf c d nr q = erase_rebalance nr (q ++ right_of l c b ∷ p)
  replace_by_next l b p (node ll e f lr) c d nr q =
      replace_by_next l b p ll e f lr (left_of c d nr ∷ q)

  -- The element with the children `l` and `r`, the factor `b` and the parents `p` is unlinked.
  unfoldable pub unlink : Tree A → ℤ → Tree A → List (Frame A) → Option (Tree A)
  unlink l b leaf p = erase_rebalance l p
  unlink leaf b (node rl c d rr) p = erase_rebalance (node rl c d rr) p
  unlink (node ll e f lr) b (node leaf c d rr) p = replace_by_right (node ll e f lr) c b rr p
  unlink (node ll e f lr) b (node (node nl g h nr) c d rr) p =
      replace_by_next (node ll e f lr) b p nl g h nr (left_of c d rr ∷ [])
