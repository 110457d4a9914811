-- ===== src/Util/AvlTree/Order.antt =====
-- The tree of kernel/util/avl_tree.h against sorted lists: `insert` and `find` by the comparator.
use reaveros.Prelude.{
  ◌≡◌, refl, sym, ap, subst, Bool, true, false, Option, List, [], ◌∷◌, ◌++◌, append-nil,
  append_assoc, arith, All, All-imp, All-left, All-right, Bool-cases, inl, inr, Holds, Holds-bind,
}
use reaveros.Prelude.Int.{pos}
use reaveros.Util.AvlTree.{Tree, leaf, node, Frame, left_of, right_of}
use reaveros.Util.AvlTree.Insert.{Inserted, insert_rebalance, insert_from, insert}
use reaveros.Util.AvlTree.Elements.{elements, before, after, elements-plug, insert_rebalance-Keeps}

-- What the tree asks of its comparator: a strict weak order.
pub record IsOrder {ℓ} {A : Type ℓ} (comp : A → A → Bool) : Type ℓ where
  pub asym : (a b : A) → comp a b ≡ true → comp b a ≡ false
  pub trans : (a b c : A) → comp a b ≡ true → comp b c ≡ true → comp a c ≡ true
  pub cotrans : (a b c : A) → comp a b ≡ true → comp c b ≡ false → comp a c ≡ true

module _ {ℓ} {A : Type ℓ} (comp : A → A → Bool) where
  -- Every element is before all that stand behind it.
  abbrev pub IsSorted : List A → Type 0
  IsSorted [] = Unit
  IsSorted (a ∷ xs) = All (λ b. comp a b ≡ true) xs × IsSorted xs

  -- A sorted list without duplicates takes one more element.
  unfoldable pub insert_sorted : A → List A → List A
  insert_sorted x [] = x ∷ []
  insert_sorted x (a ∷ xs) = elim (comp x a) [
    | true ↦ x ∷ a ∷ xs
    | false ↦ elim (comp a x) [ true ↦ a ∷ insert_sorted x xs | false ↦ a ∷ xs ]
  ]

  insert_sorted-nil : (x : A) → insert_sorted x [] ≡ x ∷ []
  unfolding insert_sorted
  insert_sorted-nil x = refl

  pub IsSorted-left : (xs ys : List A) → IsSorted (xs ++ ys) → IsSorted xs
  IsSorted-left [] ys s = tt
  IsSorted-left (a ∷ xs) ys s = (All-left _ xs ys s.0, IsSorted-left xs ys s.1)

  pub IsSorted-right : (xs ys : List A) → IsSorted (xs ++ ys) → IsSorted ys
  IsSorted-right [] ys s = s
  IsSorted-right (a ∷ xs) ys s = IsSorted-right xs ys s.1

  pub IsSorted-mid :
      (xs : List A) (a : A) (ys : List A)
      → IsSorted (xs ++ (a ∷ ys))
      → All (λ b. comp b a ≡ true) xs
  IsSorted-mid [] a ys s = tt
  IsSorted-mid (c ∷ xs) a ys s = ((All-right _ xs (a ∷ ys) s.0).0, IsSorted-mid xs a ys s.1)

  insert_sorted_before :
      (x : A) (xs : List A) (a : A) (ys : List A)
      → comp x a ≡ true
      → insert_sorted x (xs ++ (a ∷ ys)) ≡ insert_sorted x xs ++ (a ∷ ys)
  unfolding insert_sorted
  insert_sorted_before x [] a ys h = rw h
  insert_sorted_before x (c ∷ xs) a ys h = ground (arith, insert_sorted_before x xs a ys h)

  insert_sorted-All :
      (P : A → Type 0) (x : A) (xs : List A) → P x → All P xs → All P (insert_sorted x xs)
  unfolding insert_sorted
  insert_sorted-All P x [] h k = (h, tt)
  insert_sorted-All P x (a ∷ xs) h k = ground (arith, insert_sorted-All P x xs h)

  pub insert_sorted-IsSorted :
      IsOrder comp → (x : A) (xs : List A) → IsSorted xs → IsSorted (insert_sorted x xs)
  unfolding insert_sorted
  insert_sorted-IsSorted o x [] s = (tt, tt)
  insert_sorted-IsSorted o x (a ∷ xs) s = elim (Bool-cases (comp x a)) [
    | inl e ↦ rw (e, insert_sorted) ((e, All-imp (λ b. o.trans x a b e) xs s.0), s)
    | inr e ↦ elim (Bool-cases (comp a x)) [
      | inl g ↦
          rw (e, insert_sorted)
            (rw (g, insert_sorted)
              (
                insert_sorted-All (λ b. comp a b ≡ true) x xs g s.0,
                insert_sorted-IsSorted o x xs s.1,
              ))
      | inr g ↦ rw (e, insert_sorted) (rw (g, insert_sorted) s)
    ]
  ]

  module _ (o : IsOrder comp) (x : A) where
    insert_sorted_after :
        (xs : List A) (a : A) (ys : List A)
        → All (λ b. comp b a ≡ true) xs
        → comp x a ≡ false
        → comp a x ≡ true
        → insert_sorted x (xs ++ (a ∷ ys)) ≡ xs ++ (a ∷ insert_sorted x ys)
    unfolding insert_sorted
    insert_sorted_after [] a ys s h k = rw (h, insert_sorted) (rw (k, insert_sorted))
    insert_sorted_after (c ∷ xs) a ys s h k =
        ground (arith, o.trans c a x, o.asym c x, insert_sorted_after xs a ys s.1 h k)

    insert_sorted_same :
        (xs : List A) (a : A) (ys : List A)
        → All (λ b. comp b a ≡ true) xs
        → comp x a ≡ false
        → comp a x ≡ false
        → insert_sorted x (xs ++ (a ∷ ys)) ≡ xs ++ (a ∷ ys)
    unfolding insert_sorted
    insert_sorted_same [] a ys s h k = rw (h, insert_sorted) (rw (k, insert_sorted))
    insert_sorted_same (c ∷ xs) a ys s h k =
        ground (arith, o.cotrans c a x, o.asym c x, insert_sorted_same xs a ys s.1 h k)

    abbrev Made : List A → Option (Inserted A) → Type ℓ
    Made zs = Holds (λ r. elements r.root ≡ zs)

    insert_from-Made :
        (t : Tree A) (p : List (Frame A))
        → IsSorted (elements t)
        → Made (before p ++ (insert_sorted x (elements t) ++ after p)) (insert_from comp x t p)
    unfolding insert_from
    insert_from-Made leaf p s =
        Holds-bind _ (λ r. elements r.root ≡ before p ++ (insert_sorted x [] ++ after p))
          (insert_rebalance (node leaf x (pos 0) leaf) p) _
          (insert_rebalance-Keeps (node leaf x (pos 0) leaf) p) (λ t e. rw (insert_sorted-nil x) e)
    insert_from-Made (node l a b r) p s = elim (Bool-cases (comp x a)) [
      | inl e ↦
          subst (λ zs. Made zs (insert_from comp x (node l a b r) p))
            {x = before (left_of a b r ∷ p)
              ++ (insert_sorted x (elements l) ++ after (left_of a b r ∷ p))}
            (rw (insert_sorted_before x (elements l) a (elements r) e) (simp append_assoc))
            (rw (e, insert_from)
              (insert_from-Made l (left_of a b r ∷ p)
                (IsSorted-left (elements l) (a ∷ elements r) s)))
      | inr e ↦ elim (Bool-cases (comp a x)) [
        | inl g ↦
            subst (λ zs. Made zs (insert_from comp x (node l a b r) p))
              {x = before (right_of l a b ∷ p) ++ (insert_sorted x (elements r) ++ after p)}
              (rw
                (insert_sorted_after (elements l) a (elements r)
                  (IsSorted-mid (elements l) a (elements r) s) e g)
                (simp append_assoc))
              (rw (e, insert_from)
                (rw (g, insert_from)
                  (insert_from-Made r (right_of l a b ∷ p)
                    (IsSorted-right (elements l) (a ∷ elements r) s).1)))
        | inr g ↦
            subst (λ zs. Made zs (insert_from comp x (node l a b r) p))
              (ap (λ ys. before p ++ (ys ++ after p))
                (sym (
                  insert_sorted_same (elements l) a (elements r)
                    (IsSorted-mid (elements l) a (elements r) s) e g)))
              (rw (e, insert_from) (rw (g, insert_from) (elements-plug (node l a b r) p)))
      ]
    ]

    -- Where the elements are sorted, `insert` puts the new one in its place among them, or, where an
    -- equal one is there, leaves them as they are; the elements are sorted again.
    pub insert-elements :
        (t : Tree A)
        → IsSorted (elements t)
        → Holds (λ r. elements r.root ≡ insert_sorted x (elements t)) (insert comp x t)
    unfolding insert
    insert-elements t s =
        subst (λ zs. Made zs (insert_from comp x t [])) (append-nil (insert_sorted x (elements t)))
          (insert_from-Made t [] s)
