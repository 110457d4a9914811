-- ===== src/Util/AvlTree/Container/Laws.antt =====
-- The class `avl_tree` of kernel/util/avl_tree.h against sorted lists of elements.
use reaveros.Prelude.{
  ℕ, suc, ◌%◌, ◌^◌, ◌≡◌, refl, sym, ap, subst, ◌∙◌, Bool, true, false, Option, none, List, [], ◌∷◌,
  ◌++◌, append-nil, append_assoc, arith, length, length-append, drop, head?, All-append, All-left,
  All-right, Bool-cases, inl, inr, if◌then◌else◌, Holds, Holds-and, Holds-bind, Returns,
  Returns-and, Returns-bind,
}
use reaveros.Prelude.Int.{ℤ, pos}
use reaveros.Util.AvlTree.{Tree, leaf, node, Frame, left_of, right_of}
use reaveros.Util.AvlTree.Iterator.{Iterator, null, at, element, increment}
use reaveros.Util.AvlTree.Search
use reaveros.Util.AvlTree.Insert
use reaveros.Util.AvlTree.Insert.{insert_rebalance, insert_from}
use reaveros.Util.AvlTree.Erase.{unlink}
use reaveros.Util.AvlTree.Elements.{
  elements, before, after, elements-plug, insert_rebalance-Keeps, unlink-Keeps,
}
use reaveros.Util.AvlTree.Balance.{IsBalanced, Fits, height, IsBalanced-plug}
use reaveros.Util.AvlTree.Balance.Inserting.{insert-IsBalanced}
use reaveros.Util.AvlTree.Balance.Erasing.{needs_double, unlink-IsBalanced}
use reaveros.Util.AvlTree.Order.{
  IsOrder, IsSorted, insert_sorted, insert_sorted-IsSorted, insert-elements,
}
use reaveros.Util.AvlTree.Lookup.{IsCut, StandsIn, element-find, first_equal}
use reaveros.Util.AvlTree.Traversal.{remaining, remaining-increment}
use reaveros.Util.AvlTree.Container.{AvlTree, insert, erase, find, erase_key, size_inc}

counted_insert :
    (inserted : Bool) (size n k : ℕ)
    → k ≡ (if inserted then suc n else n)
    → size ≡ n % 2 ^ 64
    → (elim inserted [ true ↦ size_inc size | false ↦ size ]) ≡ k % 2 ^ 64
counted_insert true size n k e c = omega arith
counted_insert false size n k e c = omega arith

element-head? {ℓ} : {A : Type ℓ} (i : Iterator A) → element i ≡ head? (remaining i)
element-head? null = refl
element-head? (at l a b r p) = refl

module _ {ℓ} {A : Type ℓ} (comp : A → A → Bool) where
  -- Balanced with exact factors, strictly sorted, and counted.
  pub record IsValid (s : AvlTree A) : Type 0 where
    pub balanced : IsBalanced s.root
    pub sorted : IsSorted comp (elements s.root)
    pub counted : s.size ≡ length (elements s.root) % 2 ^ 64

  IsSorted-drop :
      (xs : List A) (a : A) (ys : List A)
      → IsSorted comp (xs ++ (a ∷ ys))
      → IsSorted comp (xs ++ ys)
  IsSorted-drop [] a ys s = s.1
  IsSorted-drop (x ∷ xs) a ys s = (
    All-append _ xs ys (All-left _ xs (a ∷ ys) s.0) (All-right _ xs (a ∷ ys) s.0).1,
    IsSorted-drop xs a ys s.1,
  )

  erase-null : (i : Iterator A) (s : AvlTree A) → element i ≡ none → erase i s ≡ none
  unfolding erase
  erase-null null s e = refl
  erase-null (at l a b r p) s e = cc

  abbrev Longer : ℕ → Option (Insert.Inserted A) → Type 0
  Longer n = Holds (λ r. length (elements r.root) ≡ (if r.inserted then suc n else n))

  length-insert_from :
      (x : A) (t : Tree A) (p : List (Frame A))
      → Longer (length (before p ++ (elements t ++ after p))) (insert_from comp x t p)
  unfolding insert_from
  length-insert_from x leaf p =
      Holds-bind _
        (λ r. length (elements r.root) ≡ (
          if r.inserted then suc (length (before p ++ after p)) else length (before p ++ after p)))
        (insert_rebalance (node leaf x (pos 0) leaf) p) _
        (insert_rebalance-Keeps (node leaf x (pos 0) leaf) p)
        λ t e. omega (
          arith,
          ap length e,
          length-append (before p) (x ∷ after p),
          length-append (before p) (after p),
        )
  length-insert_from x (node l a b r) p = elim (Bool-cases (comp x a)) [
    | inl e ↦
        subst (λ (xs : List A). Longer (length xs) (insert_from comp x (node l a b r) p))
          {x = before (left_of a b r ∷ p) ++ (elements l ++ after (left_of a b r ∷ p))}
          (simp append_assoc) (rw (e, insert_from) (length-insert_from x l (left_of a b r ∷ p)))
    | inr e ↦ elim (Bool-cases (comp a x)) [
      | inl g ↦
          subst (λ (xs : List A). Longer (length xs) (insert_from comp x (node l a b r) p))
            {x = before (right_of l a b ∷ p) ++ (elements r ++ after p)} (simp append_assoc)
            (rw (e, insert_from)
              (rw (g, insert_from) (length-insert_from x r (right_of l a b ∷ p))))
      | inr g ↦
          rw (e, insert_from) (rw (g, insert_from) (ap length (elements-plug (node l a b r) p)))
    ]
  ]

  length-insert : (x : A) (t : Tree A) → Longer (length (elements t)) (Insert.insert comp x t)
  unfolding Insert.insert
  length-insert x t =
      subst (λ (xs : List A). Longer (length xs) (insert_from comp x t []))
        (append-nil (elements t)) (length-insert_from x t [])

  -- On a valid tree `insert`, under a strict weak order, follows no null pointer; the tree that it
  -- leaves is valid; its elements are the old ones with the new one in its place, or unchanged where
  -- an equal one is there; and it reports an insertion exactly if there is one element more.
  pub insert-IsValid :
      IsOrder comp
      → (x : A) (s : AvlTree A) → IsValid s
      → Returns
          (λ r.
            IsValid r.tree
            × (elements r.tree.root ≡ insert_sorted comp x (elements s.root))
            × (length (elements r.tree.root) ≡ (
                if r.inserted then suc (length (elements s.root)) else length (elements s.root))))
          (insert comp x s)
  unfolding insert
  insert-IsValid o x s v =
      Returns-bind _ _ (Insert.insert comp x s.root) _
        (Returns-and _ _ (Insert.insert comp x s.root) (insert-IsBalanced comp x s.root v.balanced)
          (Holds-and _ _ (Insert.insert comp x s.root) (insert-elements comp o x s.root v.sorted)
            (length-insert x s.root)))
        λ r h. (
          record {
            balanced = h.0;
            sorted =
                subst (IsSorted comp) (sym h.1.0)
                  (insert_sorted-IsSorted comp o x (elements s.root) v.sorted);
            counted = counted_insert r.inserted s.size (length (elements s.root)) _ h.1.1 v.counted;
          },
          h.1.0,
          h.1.1,
        )

  -- On a valid tree `erase` of an element takes out this element alone, leaves a valid tree, and
  -- returns the element behind it; excepted is the root whose removal would take a double rotation.
  pub erase-IsValid :
      (l : Tree A) (a : A) (b : ℤ) (r : Tree A) (p : List (Frame A)) (s : AvlTree A)
      → IsValid s
      → StandsIn s.root (at l a b r p)
      → needs_double l b r p ≡ false
      → Returns
          (λ e.
            IsValid e.tree
            × (elements e.tree.root ≡ (before p ++ elements l) ++ (elements r ++ after p))
            × (e.next ≡ head? (elements r ++ after p))
            × (elements s.root ≡ (before p ++ elements l) ++ (a ∷ (elements r ++ after p))))
          (erase (at l a b r p) s)
  unfolding erase
  erase-IsValid l a b r p s v stands n =
      Returns-bind _ _ (increment (at l a b r p)) _ (remaining-increment l a b r p) λ i next.
        Returns-bind _ _ (unlink l b r p) _
          (Returns-and _ _ (unlink l b r p) (unlink-IsBalanced l a b r p inside.0 inside.1 n)
            (unlink-Keeps l b r p))
          λ t h.
            let kept : elements t ≡ (before p ++ elements l) ++ (elements r ++ after p) =
              h.1 ∙ simp append_assoc in
            (
              record {
                balanced = h.0;
                sorted = subst (IsSorted comp) (sym kept) (
                    IsSorted-drop (before p ++ elements l) a (elements r ++ after p)
                      (subst (IsSorted comp) old v.sorted));
                counted = omega (
                  arith,
                  v.counted,
                  ap length kept,
                  ap length old,
                  length-append (before p ++ elements l) (elements r ++ after p),
                  length-append (before p ++ elements l) (a ∷ (elements r ++ after p)),
                );
              },
              kept,
              element-head? i ∙ ap (λ xs. head? (drop 1 xs)) next,
              old,
            )
    where
      inside : IsBalanced (node l a b r) × Fits (height (node l a b r)) p
      inside = IsBalanced-plug (node l a b r) p (subst IsBalanced (sym stands) v.balanced)

      old : elements s.root ≡ (before p ++ elements l) ++ (a ∷ (elements r ++ after p))
      old = ap elements (sym stands) ∙ (elements-plug (node l a b r) p ∙ simp append_assoc)

  -- `erase(const Key &)` of a key that no element equals dereferences the null iterator that `find`
  -- returns.
  pub erase_key-absent :
      (less greater : A → Bool) (s : AvlTree A)
      → IsCut comp less greater
      → IsSorted comp (elements s.root)
      → first_equal less greater (elements s.root) ≡ none
      → erase_key less greater s ≡ none
  unfolding erase_key find
  erase_key-absent less greater s cut v e =
      erase-null (Search.find less greater s.root) s
        (element-find less greater comp cut s.root v ∙ e)
