-- ===== src/Util/AvlTree/Balance/Erasing.antt =====
-- `erase` of kernel/util/avl_tree.h and the balance of the tree: kept, but where the erased element
-- is the root and its right child takes its place.
use reaveros.Prelude.{
  ℕ, zero, suc, ◌≡◌, refl, max, Bool, true, false, some, List, [], ◌∷◌, ◌++◌, arith, ◌&&◌, Returns,
  Returns-bind,
}
use reaveros.Prelude.Int.{ℤ, pos, negsuc, is_zero, is_pos, is_neg}
use reaveros.Util.AvlTree.{
  Tree, leaf, node, Frame, left_of, right_of, plug, get_balance_factor, rebalance_right,
}
use reaveros.Util.AvlTree.Insert.{grown_left, grown_right}
use reaveros.Util.AvlTree.Erase.{erase_rebalance, replace_by_right, replace_by_next, unlink}
use reaveros.Util.AvlTree.Balance.{
  IsBalanced, Fits, Tall, height, settled, settled_lean, plug-IsBalanced, grown_left-Tall,
  grown_right-Tall,
}

module _ {ℓ} {A : Type ℓ} where
  settle-IsBalanced :
      (c : ℤ) (u : Tree A) (p : List (Frame A)) (h k : ℕ)
      → Tall (settled c h) u
      → suc (suc (suc h)) ≡ k
      → Fits k p
      → (is_zero c ≡ false → Returns IsBalanced (erase_rebalance u p))
      → Returns IsBalanced
          (elim (is_zero c) [ true ↦ some (plug u p) | false ↦ erase_rebalance u p ])
  settle-IsBalanced (pos zero) u p h k t e f go = plug-IsBalanced u p k t.0 (omega arith) f
  settle-IsBalanced (pos (suc n)) u p h k t e f go = go refl
  settle-IsBalanced (negsuc n) u p h k t e f go = go refl

  -- The subtree has shrunk by one level: its location fits the old height `h`.
  pub erase_rebalance-IsBalanced :
      (t : Tree A) (p : List (Frame A)) (h : ℕ)
      → IsBalanced t
      → suc (height t) ≡ h
      → Fits h p
      → Returns IsBalanced (erase_rebalance t p)
  unfolding erase_rebalance get_balance_factor
  erase_rebalance-IsBalanced t [] h i e f = i
  erase_rebalance-IsBalanced t (left_of a (pos zero) r ∷ p) h i e f =
      plug-IsBalanced (node t a (pos 1) r) p (suc (max h (height r))) (i, f.0, ground arith)
        (omega arith) f.2
  erase_rebalance-IsBalanced t (left_of a (pos (suc n)) leaf ∷ p) h i e f = absurd (omega arith)
  erase_rebalance-IsBalanced t (left_of a (pos (suc n)) (node rl c b rr) ∷ p) h i e f =
      Returns-bind (Tall (settled b (height t))) IsBalanced (grown_right t a (node rl c b rr)) _
        (grown_right-Tall t a rl c b rr i f.0 (ground arith))
        λ u k.
          settle-IsBalanced b u p (height t) (suc (max h (height (node rl c b rr)))) k
            (ground arith) f.2
            λ z.
              erase_rebalance-IsBalanced u p (suc (max h (height (node rl c b rr)))) k.0
                (ground (arith, settled_lean b (height t))) f.2
  erase_rebalance-IsBalanced t (left_of a (negsuc n) r ∷ p) h i e f =
      erase_rebalance-IsBalanced (node t a (pos 0) r) p (suc (max h (height r)))
        (i, f.0, ground arith) (omega arith) f.2
  erase_rebalance-IsBalanced t (right_of l a (pos zero) ∷ p) h i e f =
      plug-IsBalanced (node l a (negsuc 0) t) p (suc (max (height l) h)) (f.0, i, ground arith)
        (omega arith) f.2
  erase_rebalance-IsBalanced t (right_of l a (pos (suc n)) ∷ p) h i e f =
      erase_rebalance-IsBalanced (node l a (pos 0) t) p (suc (max (height l) h))
        (f.0, i, ground arith) (omega arith) f.2
  erase_rebalance-IsBalanced t (right_of leaf a (negsuc n) ∷ p) h i e f = absurd (omega arith)
  erase_rebalance-IsBalanced t (right_of (node ll c b lr) a (negsuc n) ∷ p) h i e f =
      Returns-bind (Tall (settled b (height t))) IsBalanced (grown_left (node ll c b lr) a t) _
        (grown_left-Tall ll c b lr a t i f.0 (ground arith))
        λ u k.
          settle-IsBalanced b u p (height t) (suc (max (height (node ll c b lr)) h)) k
            (ground arith) f.2
            λ z.
              erase_rebalance-IsBalanced u p (suc (max (height (node ll c b lr)) h)) k.0
                (ground (arith, settled_lean b (height t))) f.2

  -- What the location fits does not depend on the element of a parent.
  Fits-rename :
      (q : List (Frame A)) (l : Tree A) (x y : A) (b : ℤ) (p : List (Frame A)) (h : ℕ)
      → Fits h (q ++ (right_of l x b ∷ p))
      → Fits h (q ++ (right_of l y b ∷ p))
  Fits-rename [] l x y b p h f = f
  Fits-rename (left_of a c r ∷ q) l x y b p h f =
      (f.0, f.1, Fits-rename q l x y b p (suc (max h (height r))) f.2)
  Fits-rename (right_of s a c ∷ q) l x y b p h f =
      (f.0, f.1, Fits-rename q l x y b p (suc (max (height s) h)) f.2)

  replace_by_next-IsBalanced :
      (l : Tree A) (x : A) (b : ℤ) (p : List (Frame A)) (nl : Tree A) (c : A) (d : ℤ) (nr : Tree A)
      (q : List (Frame A))
      → IsBalanced (node nl c d nr)
      → Fits (height (node nl c d nr)) (q ++ (right_of l x b ∷ p))
      → Returns IsBalanced (replace_by_next l b p nl c d nr q)
  unfolding replace_by_next
  replace_by_next-IsBalanced l x b p leaf c d nr q i f =
      erase_rebalance-IsBalanced nr (q ++ (right_of l c b ∷ p)) (height (node leaf c d nr)) i.1
        (omega arith) (Fits-rename q l x c b p (height (node leaf c d nr)) f)
  replace_by_next-IsBalanced l x b p (node ll e g lr) c d nr q i f =
      replace_by_next-IsBalanced l x b p ll e g lr (left_of c d nr ∷ q) i.0 (i.1, i.2, f)

  -- The one case that `erase` treats by a single rotation where two are needed: at the root, whose
  -- right child takes its place, a left subtree that leans to the right becomes two levels too high.
  abbrev pub needs_double : Tree A → ℤ → Tree A → List (Frame A) → Bool
  needs_double (node ll e f lr) b (node leaf c d rr) [] = is_neg b && is_pos f
  needs_double (node ll e f lr) b (node leaf c d rr) (g ∷ p) = false
  needs_double (node ll e f lr) b (node (node nl g h nr) c d rr) p = false
  needs_double (node ll e f lr) b leaf p = false
  needs_double leaf b r p = false

  -- Unless it is the root and takes a double rotation, the removal of an element from a balanced tree
  -- follows no null pointer and leaves a balanced tree.
  pub unlink-IsBalanced :
      (l : Tree A) (a : A) (b : ℤ) (r : Tree A) (p : List (Frame A))
      → IsBalanced (node l a b r)
      → Fits (height (node l a b r)) p
      → needs_double l b r p ≡ false
      → Returns IsBalanced (unlink l b r p)
  unfolding unlink replace_by_right rebalance_right
  unlink-IsBalanced l a b leaf p i f n =
      erase_rebalance-IsBalanced l p (height (node l a b leaf)) i.0 (omega arith) f
  unlink-IsBalanced leaf a b (node rl c d rr) p i f n =
      erase_rebalance-IsBalanced (node rl c d rr) p (height (node leaf a b (node rl c d rr))) i.1
        (omega arith) f
  unlink-IsBalanced (node ll e g lr) a (pos zero) (node leaf c d rr) [] i f n = ground arith
  unlink-IsBalanced (node ll e g lr) a (pos (suc k)) (node leaf c d rr) [] i f n = ground arith
  unlink-IsBalanced (node ll e (pos (suc j)) lr) a (negsuc k) (node leaf c d rr) [] i f n = cc
  unlink-IsBalanced (node ll e (pos zero) lr) a (negsuc k) (node leaf c d rr) [] i f n =
      ground arith
  unlink-IsBalanced (node ll e (negsuc j) lr) a (negsuc k) (node leaf c d rr) [] i f n =
      ground arith
  unlink-IsBalanced (node ll e g lr) a b (node leaf c d rr) (s ∷ p) i f n =
      erase_rebalance-IsBalanced rr (right_of (node ll e g lr) c b ∷ s ∷ p)
        (height (node leaf c d rr)) i.1.1 (omega arith) (i.0, i.2, f)
  unlink-IsBalanced (node ll e g lr) a b (node (node nl s h nr) c d rr) p i f n =
      replace_by_next-IsBalanced (node ll e g lr) a b p nl s h nr (left_of c d rr ∷ []) i.1.0
        (i.1.1, i.1.2, (i.0, i.2, f))

  -- The removal of the root of a balanced tree whose right child has no left child, and whose left
  -- subtree is the higher one and leans to the right, always leaves an unbalanced tree.
  pub unlink-needs_double :
      (l : Tree A) (a : A) (b : ℤ) (r : Tree A) (p : List (Frame A))
      → IsBalanced (node l a b r)
      → needs_double l b r p ≡ true
      → Returns (λ t. ¬ IsBalanced t) (unlink l b r p)
  unfolding unlink replace_by_right rebalance_right
  unlink-needs_double (node ll e (pos (suc j)) lr) a (negsuc k) (node leaf c d rr) [] i n =
      λ t. omega arith
  unlink-needs_double (node ll e (pos (suc j)) lr) a (pos k) (node leaf c d rr) [] i n = cc
  unlink-needs_double (node ll e (pos zero) lr) a (pos k) (node leaf c d rr) [] i n = cc
  unlink-needs_double (node ll e (pos zero) lr) a (negsuc k) (node leaf c d rr) [] i n = cc
  unlink-needs_double (node ll e (negsuc j) lr) a (pos k) (node leaf c d rr) [] i n = cc
  unlink-needs_double (node ll e (negsuc j) lr) a (negsuc k) (node leaf c d rr) [] i n = cc
  unlink-needs_double (node ll e f lr) a b (node leaf c d rr) (g ∷ p) i n = cc
  unlink-needs_double (node ll e f lr) a b (node (node nl g h nr) c d rr) p i n = cc
  unlink-needs_double (node ll e f lr) a b leaf p i n = cc
  unlink-needs_double leaf a b leaf p i n = cc
  unlink-needs_double leaf a b (node rl c d rr) p i n = cc
