-- ===== src/Memory/Vas/Ranges.antt =====
-- The tree of the mappings of kernel/memory/vas.h. Its comparator is no order on all ranges, since of two
-- that overlap none precedes the other; on ranges that are apart from one another it is one.
use reaveros.Prelude.{
  ℕ, ◌≤◌, ◌<◌, ◌≡◌, refl, sym, subst, ◌⊎◌, inl, inr, true, none, some, List, [], ◌∷◌, ◌++◌,
  append_assoc, arith, leb, Bool-cases, All, All-append, All-left, All-right, All-imp, Holds,
  Holds-bind, Returns, Returns-bind, Returns-and, append-nil,
}
use reaveros.Prelude.Int.{pos}
use reaveros.Util.AvlTree.{Tree, leaf, node, Frame, left_of, right_of}
use reaveros.Util.AvlTree.Iterator.{element}
use reaveros.Util.AvlTree.Search.{find_from}
use reaveros.Util.AvlTree.Insert.{Inserted, insert_rebalance, insert_from}
use reaveros.Util.AvlTree.Elements.{elements, before, after, insert_rebalance-Keeps}
use reaveros.Util.AvlTree.Order.{IsSorted, IsSorted-left, IsSorted-right, IsSorted-mid}
use reaveros.Util.AvlTree.Search
use reaveros.Util.AvlTree.Insert
use reaveros.Util.AvlTree.Balance.{IsBalanced}
use reaveros.Util.AvlTree.Balance.Inserting.{insert-IsBalanced}
use reaveros.Util.AvlTree.Container.{AvlTree, empty, find, insert}
use reaveros.Memory.Vas.{Vas, find_mapping, VmoMapping, precedes, range_precedes, precedes_range}

abbrev pub IsRange : VmoMapping → Type 0
IsRange m = m.start < m.end

-- The range and the mapping do not overlap.
abbrev pub IsApart : ℕ → ℕ → VmoMapping → Type 0
IsApart start end m = (end ≤ m.start) ⊎ (m.end ≤ start)

some≢none : {a : VmoMapping} → some a ≡ none → ⊥
some≢none e = ground arith

module _ (start end : ℕ) where
  pub find_from-none :
      (t : Tree VmoMapping) (p : List (Frame VmoMapping))
      → All (IsApart start end) (elements t)
      → element (find_from (range_precedes start end) (precedes_range start end) t p) ≡ none
  unfolding find_from
  find_from-none leaf p h = refl
  find_from-none (node l a b r) p h =
      let rest = All-right (IsApart start end) (elements l) (a ∷ elements r) h in
      elim (Bool-cases (leb end a.start)) [
        | inl y ↦
            rw (y, find_from)
              (find_from-none l (left_of a b r ∷ p)
                (All-left (IsApart start end) (elements l) (a ∷ elements r) h))
        | inr y ↦
            let g : leb a.end start ≡ true = ground (arith, rest.0) in
            rw (y, find_from) (rw (g, find_from) (find_from-none r (right_of l a b ∷ p) rest.1))
      ]

  find_from-IsApart :
      (t : Tree VmoMapping) (p : List (Frame VmoMapping))
      → IsSorted precedes (elements t)
      → All IsRange (elements t)
      → element (find_from (range_precedes start end) (precedes_range start end) t p) ≡ none
      → All (IsApart start end) (elements t)
  unfolding find_from
  find_from-IsApart leaf p s k = λ h. tt
  find_from-IsApart (node l a b r) p s k =
      let right = IsSorted-right precedes (elements l) (a ∷ elements r) s in
      let ranges = All-right IsRange (elements l) (a ∷ elements r) k in
      let below = IsSorted-mid precedes (elements l) a (elements r) s in
      elim (Bool-cases (leb end a.start)) [
        | inl y ↦
            rw (y, find_from)
              (λ h.
                let e : end ≤ a.start = ground (arith, y) in
                All-append (IsApart start end) (elements l) (a ∷ elements r)
                  (find_from-IsApart l (left_of a b r ∷ p)
                    (IsSorted-left precedes (elements l) (a ∷ elements r) s)
                    (All-left IsRange (elements l) (a ∷ elements r) k) h)
                  (
                    inl e,
                    All-imp (λ m q. inl (ground (arith, ranges.0, e, q))) (elements r) right.0,
                  ))
        | inr y ↦ elim (Bool-cases (leb a.end start)) [
          | inl g ↦
              rw (y, find_from)
                (rw (g, find_from)
                  (λ h.
                    let e : a.end ≤ start = ground (arith, g) in
                    All-append (IsApart start end) (elements l) (a ∷ elements r)
                      (All-imp (λ m q. inr (ground (arith, ranges.0, e, q))) (elements l) below)
                      (inr e, find_from-IsApart r (right_of l a b ∷ p) right.1 ranges.1 h)))
          | inr g ↦ rw (y, find_from) (rw (g, find_from) (λ h. elim (some≢none h) [ ]))
        ]
      ]

-- The mappings of an address space: a balanced tree of ranges, in order and apart from one another.
pub record Disjoint (s : AvlTree VmoMapping) : Type 0 where
  pub balanced : IsBalanced s.root
  pub sorted : IsSorted precedes (elements s.root)
  pub ranges : All IsRange (elements s.root)

-- Where the new element stands among the old ones.
abbrev pub Placed : VmoMapping → List VmoMapping → List VmoMapping → Type 0
Placed x old new =
    (xs : List VmoMapping) × (ys : List VmoMapping) × (old ≡ xs ++ ys)
    × (new ≡ xs ++ (x ∷ ys))
    × All (λ m. m.end ≤ x.start) xs
    × All (λ m. x.end ≤ m.start) ys

module _ (x : VmoMapping) where
  insert_from-Placed :
      (t : Tree VmoMapping) (p : List (Frame VmoMapping))
      → IsSorted precedes (elements t)
      → All IsRange (elements t)
      → All (IsApart x.start x.end) (elements t)
      → IsRange x
      → All (λ m. m.end ≤ x.start) (before p)
      → All (λ m. x.end ≤ m.start) (after p)
      → Holds
          (λ r. Placed x (before p ++ (elements t ++ after p)) (elements r.root))
          (insert_from precedes x t p)
  unfolding insert_from
  insert_from-Placed leaf p s k h z u w =
      Holds-bind _ (λ r. Placed x (before p ++ after p) (elements r.root))
        (insert_rebalance (node leaf x (pos 0) leaf) p) _
        (insert_rebalance-Keeps (node leaf x (pos 0) leaf) p)
        (λ t e. (before p, after p, refl, e, u, w))
  insert_from-Placed (node l a b r) p s k h z u w =
      let right = IsSorted-right precedes (elements l) (a ∷ elements r) s in
      let ranges = All-right IsRange (elements l) (a ∷ elements r) k in
      let apart = All-right (IsApart x.start x.end) (elements l) (a ∷ elements r) h in
      let below = IsSorted-mid precedes (elements l) a (elements r) s in
      elim (Bool-cases (leb x.end a.start)) [
        | inl y ↦
            let e : x.end ≤ a.start = ground (arith, y) in
            subst
              (λ (xs : List VmoMapping).
                Holds (λ r. Placed x xs (elements r.root))
                  (insert_from precedes x (node l a b r) p))
              {x = before (left_of a b r ∷ p) ++ (elements l ++ after (left_of a b r ∷ p))}
              (simp append_assoc)
              (rw (y, insert_from)
                (insert_from-Placed l (left_of a b r ∷ p)
                  (IsSorted-left precedes (elements l) (a ∷ elements r) s)
                  (All-left IsRange (elements l) (a ∷ elements r) k)
                  (All-left (IsApart x.start x.end) (elements l) (a ∷ elements r) h) z u
                  (
                    e,
                    All-append _ (elements r) (after p)
                        (All-imp (λ m q. ground (arith, ranges.0, e, q)) (elements r) right.0) w,
                  )))
        | inr y ↦
            let e : a.end ≤ x.start = ground (arith, apart.0, y) in
            let g : leb a.end x.start ≡ true = ground (arith, e) in
            subst
              (λ (xs : List VmoMapping).
                Holds (λ r. Placed x xs (elements r.root))
                  (insert_from precedes x (node l a b r) p))
              {x = before (right_of l a b ∷ p) ++ (elements r ++ after (right_of l a b ∷ p))}
              (simp append_assoc)
              (rw (y, insert_from)
                (rw (g, insert_from)
                  (insert_from-Placed r (right_of l a b ∷ p) right.1 ranges.1 apart.1 z
                    (All-append _ (before p) (elements l ++ (a ∷ [])) u (
                      All-append _ (elements l) (a ∷ [])
                        (All-imp (λ m q. ground (arith, ranges.0, e, q)) (elements l) below)
                        (e, tt)))
                    w)))
      ]

  insert-Placed :
      (s : AvlTree VmoMapping)
      → Disjoint s
      → All (IsApart x.start x.end) (elements s.root)
      → IsRange x
      → Holds (λ r. Placed x (elements s.root) (elements r.root)) (Insert.insert precedes x s.root)
  unfolding Insert.insert
  insert-Placed s d h z =
      subst
        (λ (xs : List VmoMapping).
          Holds (λ r. Placed x xs (elements r.root)) (Insert.insert precedes x s.root))
        (append-nil (elements s.root)) (insert_from-Placed s.root [] d.sorted d.ranges h z tt tt)

pub empty-Disjoint : Disjoint empty
unfolding empty
empty-Disjoint = record { balanced = tt; sorted = tt; ranges = tt }

pub find_mapping-none :
    (start end : ℕ) (v : Vas)
    → All (IsApart start end) (elements v.mappings.root)
    → element (find_mapping start end v) ≡ none
unfolding find Search.find
find_mapping-none start end v h = find_from-none start end v.mappings.root [] h

pub find_mapping-IsApart :
    (start end : ℕ) (v : Vas)
    → Disjoint v.mappings
    → element (find_mapping start end v) ≡ none
    → All (IsApart start end) (elements v.mappings.root)
unfolding find Search.find
find_mapping-IsApart start end v d h =
    find_from-IsApart start end v.mappings.root [] d.sorted d.ranges h

IsSorted-placed :
    (x : VmoMapping) (xs ys : List VmoMapping)
    → IsSorted precedes (xs ++ ys)
    → All (λ m. m.end ≤ x.start) xs
    → All (λ m. x.end ≤ m.start) ys
    → IsSorted precedes (xs ++ (x ∷ ys))
IsSorted-placed x [] ys s h k = (All-imp (λ m q. ground (arith, q)) ys k, s)
IsSorted-placed x (a ∷ xs) ys s h k = (
  All-append _ xs (x ∷ ys) (All-left _ xs ys s.0) (ground (arith, h.0), All-right _ xs ys s.0),
  IsSorted-placed x xs ys s.1 h.1 k,
)

Placed-ranges :
    (x : VmoMapping) (old new : List VmoMapping)
    → Placed x old new
    → IsRange x
    → IsSorted precedes old
    → All IsRange old
    → IsSorted precedes new × All IsRange new
Placed-ranges x old new (xs, ys, q, e, h, k) z s g =
    let s' = subst (IsSorted precedes) q s in
    let g' = subst (All IsRange) q g in
    (
      subst (IsSorted precedes) (sym e) (IsSorted-placed x xs ys s' h k),
      subst (All IsRange) (sym e) (
          All-append IsRange xs (x ∷ ys) (All-left IsRange xs ys g')
            (z, All-right IsRange xs ys g')),
    )

-- A mapping that is apart from all others is put in its place among them.
pub insert-Disjoint :
    (x : VmoMapping) (s : AvlTree VmoMapping)
    → Disjoint s
    → All (IsApart x.start x.end) (elements s.root)
    → IsRange x
    → Returns
        (λ r. Disjoint r.tree × Placed x (elements s.root) (elements r.tree.root))
        (insert precedes x s)
unfolding insert
insert-Disjoint x s d h z =
    Returns-bind _ _ (Insert.insert precedes x s.root) _
      (Returns-and _ _ (Insert.insert precedes x s.root)
        (insert-IsBalanced precedes x s.root d.balanced) (insert-Placed x s d h z))
      (λ r k.
        let p = Placed-ranges x (elements s.root) (elements r.root) k.1 z d.sorted d.ranges in
        (record { balanced = k.0; sorted = p.0; ranges = p.1 }, k.1))
