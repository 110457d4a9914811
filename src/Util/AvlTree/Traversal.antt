-- ===== src/Util/AvlTree/Traversal.antt =====
-- The iterators of kernel/util/avl_tree.h visit the elements in order.
use reaveros.Prelude.{
  suc, ◌+◌, ◌≤◌, ◌≡◌, ◌≢◌, refl, ap, ◌∙◌, List, [], ◌∷◌, ◌++◌, append-nil, append_assoc, arith,
  length, length-append, Returns,
}
use reaveros.Prelude.Int.{ℤ}
use reaveros.Util.AvlTree.{Tree, leaf, node, Frame, left_of, right_of}
use reaveros.Util.AvlTree.Iterator.{
  Iterator, null, at, leftmost, climb, climb_left, increment, decrement, begin,
}
use reaveros.Util.AvlTree.Elements.{elements, before, after}

module _ {ℓ} {A : Type ℓ} where
  -- The elements from an iterator's position on.
  abbrev pub remaining : Iterator A → List A
  remaining null = []
  remaining (at l a b r p) = a ∷ (elements r ++ after p)

  remaining-leftmost :
      (l : Tree A) (a : A) (b : ℤ) (r : Tree A) (p : List (Frame A))
      → remaining (leftmost l a b r p) ≡ elements l ++ (a ∷ (elements r ++ after p))
  unfolding leftmost
  remaining-leftmost leaf a b r p = refl
  remaining-leftmost (node ll c d lr) a b r p =
      remaining-leftmost ll c d lr (left_of a b r ∷ p) ∙ simp append_assoc

  remaining-climb : (t : Tree A) (p : List (Frame A)) → remaining (climb t p) ≡ after p
  unfolding climb
  remaining-climb t [] = refl
  remaining-climb t (left_of a b r ∷ p) = refl
  remaining-climb t (right_of l a b ∷ p) = remaining-climb (node l a b t) p

  -- `begin()` is followed by every element of the tree, in order.
  pub remaining-begin : (t : Tree A) → remaining (begin t) ≡ elements t
  unfolding begin
  remaining-begin leaf = refl
  remaining-begin (node l a b r) = remaining-leftmost l a b r [] ∙ simp append-nil

  -- `++` on an element steps over this one element and no other, and reaches `end()` behind the last.
  pub remaining-increment :
      (l : Tree A) (a : A) (b : ℤ) (r : Tree A) (p : List (Frame A))
      → Returns (λ i. a ∷ remaining i ≡ remaining (at l a b r p)) (increment (at l a b r p))
  unfolding increment
  remaining-increment l a b leaf p = ap (λ xs. a ∷ xs) (remaining-climb (node l a b leaf) p)
  remaining-increment l a b (node rl c d rr) p =
      ap (λ xs. a ∷ xs) (remaining-leftmost rl c d rr (right_of l a b ∷ p) ∙ simp append_assoc)

  climb_left-stays :
      (l : Tree A) (a : A) (b : ℤ) (r : Tree A) (p : List (Frame A))
      → length (remaining (climb_left l a b r p)) ≤ suc (length (elements r) + length (after p))
  unfolding climb_left
  climb_left-stays l a b r [] = omega arith
  climb_left-stays l a b r (left_of c d s ∷ p) =
      omega (arith, climb_left-stays (node l a b r) c d s p, length-append (elements s) (after p))
  climb_left-stays l a b r (right_of s c d ∷ p) =
      omega (arith, length-append (elements r) (after p))

  -- `--` on an element that has no left child never moves back: what it returns is followed by no
  -- more elements than before, though an element stands before it.
  pub decrement_no_left :
      (a : A) (b : ℤ) (r : Tree A) (p : List (Frame A))
      → before p ≢ []
      → Returns
          (λ i. length (remaining i) ≤ length (remaining (at leaf a b r p)))
          (decrement (at leaf a b r p))
  unfolding decrement
  decrement_no_left a b r p h =
      omega (arith, climb_left-stays leaf a b r p, length-append (elements r) (after p))
