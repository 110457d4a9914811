-- ===== src/Util/AvlTree/Balance/Inserting.antt =====
-- `insert` of kernel/util/avl_tree.h keeps the tree balanced, and follows no null pointer.
use reaveros.Prelude.{
  ℕ, zero, suc, ◌≡◌, refl, ◌⊎◌, inl, inr, max, Bool, false, List, [], ◌∷◌, arith, Bool-cases,
  Returns, Returns-bind,
}
use reaveros.Prelude.Int.{ℤ, pos, negsuc, is_zero}
use reaveros.Util.AvlTree.{Tree, leaf, node, Frame, left_of, right_of}
use reaveros.Util.AvlTree.Insert.{grown_left, grown_right, insert_rebalance, insert_from, insert}
use reaveros.Util.AvlTree.Balance.{
  IsBalanced, Fits, Tall, height, settled, settled_lean, plug-IsBalanced, grown_left-Tall,
  grown_right-Tall,
}

-- A subtree that has grown leans to a side, unless it is the new element.
abbrev Leans : ℤ → ℕ → Type 0
Leans c h = (is_zero c ≡ false) ⊎ (h ≡ 0)

module _ {ℓ} {A : Type ℓ} where
  pub insert_rebalance-IsBalanced :
      (l : Tree A) (a : A) (c : ℤ) (r : Tree A) (p : List (Frame A)) (h : ℕ)
      → IsBalanced (node l a c r)
      → height (node l a c r) ≡ suc h
      → Leans c h
      → Fits h p
      → Returns IsBalanced (insert_rebalance (node l a c r) p)
  unfolding insert_rebalance
  insert_rebalance-IsBalanced l a c r [] h i e n f = i
  insert_rebalance-IsBalanced l a c r (right_of s d (pos zero) ∷ p) h i e n f =
      insert_rebalance-IsBalanced s d (pos 1) (node l a c r) p (suc (max (height s) h))
        (f.0, i, ground arith) (omega arith) (inl refl) f.2
  insert_rebalance-IsBalanced l a c r (right_of s d (pos (suc k)) ∷ p) h i e n f =
      Returns-bind (Tall (settled c (height s))) IsBalanced (grown_right s d (node l a c r)) _
        (grown_right-Tall s d l a c r f.0 i (ground arith))
        λ t b.
          plug-IsBalanced t p (suc (max (height s) h)) b.0
            (ground (arith, settled_lean c (height s))) f.2
  insert_rebalance-IsBalanced l a c r (right_of s d (negsuc k) ∷ p) h i e n f =
      plug-IsBalanced (node s d (pos 0) (node l a c r)) p (suc (max (height s) h))
        (f.0, i, ground arith) (omega arith) f.2
  insert_rebalance-IsBalanced l a c r (left_of d (pos zero) s ∷ p) h i e n f =
      insert_rebalance-IsBalanced (node l a c r) d (negsuc 0) s p (suc (max h (height s)))
        (i, f.0, ground arith) (omega arith) (inl refl) f.2
  insert_rebalance-IsBalanced l a c r (left_of d (pos (suc k)) s ∷ p) h i e n f =
      plug-IsBalanced (node (node l a c r) d (pos 0) s) p (suc (max h (height s)))
        (i, f.0, ground arith) (omega arith) f.2
  insert_rebalance-IsBalanced l a c r (left_of d (negsuc k) s ∷ p) h i e n f =
      Returns-bind (Tall (settled c (height s))) IsBalanced (grown_left (node l a c r) d s) _
        (grown_left-Tall l a c r d s f.0 i (ground arith))
        λ t b.
          plug-IsBalanced t p (suc (max h (height s))) b.0
            (ground (arith, settled_lean c (height s))) f.2

  module _ (comp : A → A → Bool) (x : A) where
    insert_from-IsBalanced :
        (t : Tree A) (p : List (Frame A))
        → IsBalanced t
        → Fits (height t) p
        → Returns (λ i. IsBalanced i.root) (insert_from comp x t p)
    unfolding insert_from
    insert_from-IsBalanced leaf p i f =
        Returns-bind IsBalanced _ (insert_rebalance (node leaf x (pos 0) leaf) p) _
          (insert_rebalance-IsBalanced leaf x (pos 0) leaf p 0 (tt, tt, ground arith) (omega arith)
            (inr refl) f)
          λ t b. b
    insert_from-IsBalanced (node l a b r) p i f = elim (Bool-cases (comp x a)) [
      | inl e ↦ rw (e, insert_from) (insert_from-IsBalanced l (left_of a b r ∷ p) i.0 (i.1, i.2, f))
      | inr e ↦
          rw (e, insert_from)
            (elim (Bool-cases (comp a x)) [
              | inl g ↦
                  rw (g, insert_from)
                    (insert_from-IsBalanced r (right_of l a b ∷ p) i.1 (i.0, i.2, f))
              | inr g ↦
                  rw (g, insert_from)
                    (plug-IsBalanced (node l a b r) p (height (node l a b r)) i refl f)
            ])
    ]

    -- On a balanced tree `insert` follows no null pointer, and the tree that it leaves is balanced,
    -- its stored factors exact; this holds for every comparator.
    pub insert-IsBalanced :
        (t : Tree A) → IsBalanced t → Returns (λ i. IsBalanced i.root) (insert comp x t)
    unfolding insert
    insert-IsBalanced t i = insert_from-IsBalanced t [] i tt
