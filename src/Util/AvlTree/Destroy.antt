-- ===== src/Util/AvlTree/Destroy.antt =====
-- The destructor of `avl_tree` in kernel/util/avl_tree.h. Its two loops are one with `fuel` rounds.
use reaveros.Prelude.{
  ℕ, zero, suc, ◌+◌, ◌*◌, ◌≤◌, ◌<◌, ◌≡◌, refl, sym, ap, ◌∙◌, Option, none, some, List, [], ◌∷◌,
  ◌++◌, ◌>>=◌, append_assoc, arith, length, length-append,
}
use reaveros.Prelude.Int.{ℤ}
use reaveros.Util.AvlTree.{Tree, leaf, node, rotate_right}
use reaveros.Util.AvlTree.Elements.{elements}

module _ {ℓ} {A : Type ℓ} where
  -- The elements that are given back to `Traits::create`, in this order. The destructor returns as
  -- soon as the root has no right child, before the old root is given back.
  unfoldable pub destroy : ℕ → Tree A → Option (List A)
  destroy zero t = none
  destroy (suc fuel) leaf = some []
  destroy (suc fuel) (node leaf a b leaf) = some []
  destroy (suc fuel) (node leaf a b (node l c d r)) =
      destroy fuel (node l c d r) >>= λ xs. some (a ∷ xs)
  destroy (suc fuel) (node (node ll c d lr) a b r) =
      rotate_right (node (node ll c d lr) a b r) >>= λ t. destroy fuel t

  -- All elements of a list but the last.
  abbrev pub drop_last : List A → List A
  drop_last [] = []
  drop_last (x ∷ []) = []
  drop_last (x ∷ y ∷ xs) = x ∷ drop_last (y ∷ xs)

  -- The rounds that are left: one for an element, and one for each rotation that may come.
  abbrev rounds : Tree A → ℕ
  rounds leaf = 1
  rounds (node l a b r) = suc (2 * length (elements l)) + rounds r

  drop_last-cons :
      (x : A) (xs ys : List A) (y : A)
      → drop_last (x ∷ (xs ++ (y ∷ ys))) ≡ x ∷ drop_last (xs ++ (y ∷ ys))
  drop_last-cons x [] ys y = refl
  drop_last-cons x (z ∷ xs) ys y = refl

  destroy_rotated :
      (fuel : ℕ) (ll : Tree A) (c : A) (d : ℤ) (lr : Tree A) (a : A) (b : ℤ) (r : Tree A)
      → destroy (suc fuel) (node (node ll c d lr) a b r)
        ≡ destroy fuel (node ll c d (node lr a b r))
  unfolding destroy rotate_right
  destroy_rotated fuel ll c d lr a b r = refl

  destroy-rounds :
      (fuel : ℕ) (t : Tree A) → rounds t ≤ fuel → destroy fuel t ≡ some (drop_last (elements t))
  unfolding destroy
  destroy-rounds zero leaf le = absurd (omega arith)
  destroy-rounds zero (node l a b r) le = absurd (omega arith)
  destroy-rounds (suc fuel) leaf le = refl
  destroy-rounds (suc fuel) (node leaf a b leaf) le = refl
  destroy-rounds (suc fuel) (node leaf a b (node l c d r)) le =
      rw (destroy-rounds fuel (node l c d r) (omega arith), destroy)
        (ap some (sym (drop_last-cons a (elements l) (elements r) c)))
  destroy-rounds (suc fuel) (node (node ll c d lr) a b r) le =
      destroy_rotated fuel ll c d lr a b r
      ∙ (destroy-rounds fuel (node ll c d (node lr a b r))
            (omega (arith, length-append (elements ll) (c ∷ elements lr)))
          ∙ ap (λ xs. some (drop_last xs))
              {y = (elements ll ++ (c ∷ elements lr)) ++ (a ∷ elements r)} (simp append_assoc))

  rounds-length : (t : Tree A) → rounds t ≤ suc (2 * length (elements t))
  rounds-length leaf = omega arith
  rounds-length (node l a b r) =
      omega (arith, rounds-length r, length-append (elements l) (a ∷ elements r))

  -- The destructor, given more than twice as many rounds as there are elements, ends; it gives every
  -- element back in order but the last one, which is lost.
  pub destroy_lem :
      (fuel : ℕ) (t : Tree A)
      → 2 * length (elements t) < fuel
      → destroy fuel t ≡ some (drop_last (elements t))
  destroy_lem fuel t lt = destroy-rounds fuel t (omega (arith, rounds-length t))
