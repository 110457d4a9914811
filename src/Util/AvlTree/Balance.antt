-- ===== src/Util/AvlTree/Balance.antt =====
-- The balance of the tree of kernel/util/avl_tree.h: `_left_depth` and `_right_depth` are the
-- heights of the subtrees, and a balance factor is their difference, at most one.
pub mod Inserting
pub mod Erasing
use reaveros.Prelude.{
  ℕ, zero, suc, ◌+◌, ◌≤◌, ◌≡◌, refl, max, false, Option, none, some, List, [], ◌∷◌, arith, Returns,
}
use reaveros.Prelude.Int.{ℤ, pos, negsuc, pos_part, neg_part, is_zero}
use reaveros.Util.AvlTree.{Tree, leaf, node, Frame, left_of, right_of, plug}
use reaveros.Util.AvlTree.Insert.{grown_left, grown_right}

module _ {ℓ} {A : Type ℓ} where
  -- `_left_depth` and `_right_depth` of an element are the heights of its two subtrees.
  abbrev pub height : Tree A → ℕ
  height leaf = 0
  height (node l a b r) = suc (max (height l) (height r))

-- The factor `b` is the height on the right less the height on the left, and one at most.
abbrev pub IsFactor : ℤ → ℕ → ℕ → Type 0
IsFactor b hl hr = (pos_part b + hl ≡ neg_part b + hr) × (pos_part b ≤ 1) × (neg_part b ≤ 1)

module _ {ℓ} {A : Type ℓ} where
  abbrev pub IsBalanced : Tree A → Type 0
  IsBalanced leaf = Unit
  IsBalanced (node l a b r) = IsBalanced l × IsBalanced r × IsFactor b (height l) (height r)

  -- The rest of the tree is balanced, if the subtree at the location has the height `h`.
  abbrev pub Fits : ℕ → List (Frame A) → Type 0
  Fits h [] = Unit
  Fits h (left_of a b r ∷ p) =
      IsBalanced r × IsFactor b h (height r) × Fits (suc (max h (height r))) p
  Fits h (right_of l a b ∷ p) =
      IsBalanced l × IsFactor b (height l) h × Fits (suc (max (height l) h)) p

  pub plug-IsBalanced :
      (t : Tree A) (p : List (Frame A)) (h : ℕ)
      → IsBalanced t
      → height t ≡ h
      → Fits h p
      → IsBalanced (plug t p)
  unfolding plug
  plug-IsBalanced t [] h i e f = i
  plug-IsBalanced t (left_of a b r ∷ p) h i e f =
      plug-IsBalanced (node t a b r) p (suc (max h (height r))) (i, f.0, ground arith) (omega arith)
        f.2
  plug-IsBalanced t (right_of l a b ∷ p) h i e f =
      plug-IsBalanced (node l a b t) p (suc (max (height l) h)) (f.0, i, ground arith) (omega arith)
        f.2

  pub IsBalanced-plug :
      (t : Tree A) (p : List (Frame A)) → IsBalanced (plug t p) → IsBalanced t × Fits (height t) p
  unfolding plug
  IsBalanced-plug t [] i = (i, tt)
  IsBalanced-plug t (left_of a b r ∷ p) i =
      let (j, f) = IsBalanced-plug (node t a b r) p i in (j.0, (j.1, j.2, f))
  IsBalanced-plug t (right_of l a b ∷ p) i =
      let (j, f) = IsBalanced-plug (node l a b t) p i in (j.1, (j.0, j.2, f))

  -- A balanced tree of the height `h`.
  abbrev pub Tall : ℕ → Tree A → Type 0
  Tall h t = IsBalanced t × (height t ≡ h)

-- The height after a rotation, over a lower subtree of the height `h`: the tree stays as high only
-- if the higher subtree had the factor 0.
abbrev pub settled : ℤ → ℕ → ℕ
settled (pos zero) h = suc (suc (suc h))
settled (pos (suc n)) h = suc (suc h)
settled (negsuc n) h = suc (suc h)

pub settled_lean : (c : ℤ) (h : ℕ) → is_zero c ≡ false → settled c h ≡ suc (suc h)
settled_lean (pos zero) h e = cc
settled_lean (pos (suc n)) h e = refl
settled_lean (negsuc n) h e = refl

module _ {ℓ} {A : Type ℓ} where
  -- The right subtree is two levels higher than the left one.
  pub grown_right-Tall :
      (l : Tree A) (a : A) (rl : Tree A) (c : A) (b : ℤ) (rr : Tree A)
      → IsBalanced l
      → IsBalanced (node rl c b rr)
      → height (node rl c b rr) ≡ suc (suc (height l))
      → Returns (Tall (settled b (height l))) (grown_right l a (node rl c b rr))
  unfolding grown_right
  grown_right-Tall l a rl c (pos zero) rr i j e = ground arith
  grown_right-Tall l a rl c (pos (suc n)) rr i j e = ground arith
  grown_right-Tall l a leaf c (negsuc n) rr i j e = ground arith
  grown_right-Tall l a (node ml m (pos zero) mr) c (negsuc n) rr i j e = ground arith
  grown_right-Tall l a (node ml m (pos (suc k)) mr) c (negsuc n) rr i j e = ground arith
  grown_right-Tall l a (node ml m (negsuc k) mr) c (negsuc n) rr i j e = ground arith

  pub grown_left-Tall :
      (ll : Tree A) (c : A) (b : ℤ) (lr : Tree A) (a : A) (r : Tree A)
      → IsBalanced r
      → IsBalanced (node ll c b lr)
      → height (node ll c b lr) ≡ suc (suc (height r))
      → Returns (Tall (settled b (height r))) (grown_left (node ll c b lr) a r)
  unfolding grown_left
  grown_left-Tall ll c (pos zero) lr a r i j e = ground arith
  grown_left-Tall ll c (negsuc n) lr a r i j e = ground arith
  grown_left-Tall ll c (pos (suc n)) leaf a r i j e = ground arith
  grown_left-Tall ll c (pos (suc n)) (node ml m (pos zero) mr) a r i j e = ground arith
  grown_left-Tall ll c (pos (suc n)) (node ml m (pos (suc k)) mr) a r i j e = ground arith
  grown_left-Tall ll c (pos (suc n)) (node ml m (negsuc k) mr) a r i j e = ground arith
