-- ===== src/Memory/Vas/Release.antt =====
-- `vas::unmap` of kernel/memory/vas.cpp and `vmo_mapping::release` of kernel/memory/vmo_mapping.h: the range
-- of a mapping is set to an empty one while it stands in the tree that is ordered by the ranges.
use reaveros.Prelude.{
  ℕ, ◌+◌, ◌-◌, ◌/◌, ◌%◌, ◌^◌, ◌≤◌, ◌<◌, ◌≡◌, ◌≢◌, refl, subst, ap, ◌∙◌, inl, inr, true, false,
  Option, none, some, List, [], ◌∷◌, ◌++◌, arith, leb, ◌==◌, ==-refl, ◌&&◌, if◌then◌else◌,
  Bool-cases, All, All-append, All-left, All-right, All-imp, append_assoc,
}
use reaveros.Prelude.Int.{ℤ}
use reaveros.Prelude.Outcome.{Outcome, done, ◌>>=◌, Yields, Yields-bind, Yields-imp}
use reaveros.Util.AvlTree.{Tree, leaf, node, right_of}
use reaveros.Util.AvlTree.Iterator.{element}
use reaveros.Util.AvlTree.Search
use reaveros.Util.AvlTree.Elements.{elements}
use reaveros.Util.AvlTree.Order.{IsSorted, IsSorted-right}
use reaveros.Util.AvlTree.Container.{find}
use reaveros.Arch.PageTable.{Table, virt_to_phys}
use reaveros.Arch.PageTable.Change.{changed_out}
use reaveros.Arch.PageTable.Sound.{page_end}
use reaveros.Arch.PageTable.Unmap.Removal.{IsPaged, unmapped}
use reaveros.Arch.PageTable.Unmap.Result.{IsReleased, unmap-IsReleased}
use reaveros.Arch.PageTable.Unmap
use reaveros.Memory.Vas.{
  VmoMapping, Vas, precedes, range_precedes, precedes_range, find_mapping, lock_found,
  lock_address_range,
}
use reaveros.Memory.Vas.Ranges.{IsRange, IsApart, Disjoint, find_from-none, find_mapping-IsApart}

-- `release`: the mapping has no range and no object any more.
abbrev pub release : VmoMapping → VmoMapping → VmoMapping
release m a =
    if a.start == m.start && a.end == m.end
    then (record a { start = 0; end = 0; object = 0 })
    else a

unfoldable pub release_in : VmoMapping → Tree VmoMapping → Tree VmoMapping
release_in m leaf = leaf
release_in m (node l a b r) = node (release_in m l) (release m a) b (release_in m r)

-- What `unmap` leaves of the address space, with the tables after it.
abbrev pub released : VmoMapping → Table → Vas → Vas
released m t v = record v {
  table = t;
  mappings = record v.mappings { root = release_in m v.mappings.root };
}

-- `vas::unmap`.
unfoldable pub unmap_mapping : VmoMapping → Vas → Outcome Vas
unfolding release_in
unmap_mapping m v =
    Unmap.unmap m.start m.end false v.table >>= λ u. done (released m u.table_after v)

release_in-IsApart :
    (start end : ℕ) (m : VmoMapping) (t : Tree VmoMapping)
    → All (IsApart start end) (elements t)
    → All (IsApart start end) (elements (release_in m t))
unfolding release_in
release_in-IsApart start end m leaf h = tt
release_in-IsApart start end m (node l a b r) h =
    let k = All-right (IsApart start end) (elements l) (a ∷ elements r) h in
    All-append (IsApart start end) (elements (release_in m l))
      (release m a ∷ elements (release_in m r))
      (release_in-IsApart start end m l
        (All-left (IsApart start end) (elements l) (a ∷ elements r) h))
      (
        elim (Bool-cases (a.start == m.start && a.end == m.end)) [
          | inl y ↦ rw y (inr (omega arith))
          | inr y ↦ rw y (k.0)
        ],
        release_in-IsApart start end m r k.1,
      )

-- The search at the emptied root turns to the right.
find-emptied :
    (start end : ℕ) (l : Tree VmoMapping) (m : VmoMapping) (b : ℤ) (r : Tree VmoMapping)
    → start < end
    → All (IsApart start end) (elements r)
    → element (
        Search.find
          (range_precedes start end)
          (precedes_range start end)
          (release_in m (node l m b r)))
      ≡ none
unfolding release_in Search.find Search.find_from
find-emptied start end l m b r lt h =
    let y : (m.start == m.start && m.end == m.end) ≡ true =
      rw (==-refl m.start m.start refl, ==-refl m.end m.end refl) refl in
    let n : leb end 0 ≡ false = ground (arith, lt) in
    let g : leb 0 start ≡ true = ground arith in
    rw y (
      rw (n, Search.find_from)
        (rw (g, Search.find_from)
          (find_from-none start end (release_in m r)
            (right_of (release_in m l) (record m { start = 0; end = 0; object = 0 }) b ∷ [])
            (release_in-IsApart start end m r h))))

-- A mapping of the tree is not apart from its own range, and so it is found.
find_mapping-own :
    (k : VmoMapping) (v : Vas) (xs ys : List VmoMapping)
    → Disjoint v.mappings
    → elements v.mappings.root ≡ xs ++ (k ∷ ys)
    → element (find_mapping k.start k.end v) ≢ none
find_mapping-own k v xs ys d q h =
    let apart = subst (All (IsApart k.start k.end)) q (find_mapping-IsApart k.start k.end v d h) in
    let range = (All-right IsRange xs (k ∷ ys) (subst (All IsRange) q d.ranges)).0 in
    elim ((All-right (IsApart k.start k.end) xs (k ∷ ys) apart).0) [
      | inl g ↦ omega (arith, g, range)
      | inr g ↦ omega (arith, g, range)
    ]

lock_found-found : (o : Option VmoMapping) → o ≢ none → lock_found false o ≢ none
lock_found-found none n h = n refl
lock_found-found (some m) n h = n h

-- The pages of the half of the address space before an unmapped range are translated as before.
unmap_mapping-before :
    (m : VmoMapping) (v : Vas) (Q : Vas → Type 0)
    → m.start % 4096 ≡ 0
    → m.start < m.end
    → m.end + 4095 < 2 ^ 64
    → m.start / 2 ^ 48 ≡ (m.end - 1) / 2 ^ 48
    → IsPaged 3 m.start (page_end m.end) v.table
    → ((t : Table) → Q (released m t v))
    → Yields
        (λ w.
          Q w
          × ((x : ℕ)
              → x < m.start
              → x / 2 ^ 48 ≡ m.start / 2 ^ 48
              → virt_to_phys 3 w.table x ≡ virt_to_phys 3 v.table x))
        (unmap_mapping m v)
unfolding unmap_mapping
unmap_mapping-before m v Q aligned lt top half pg q =
    Yields-bind (IsReleased m.start (page_end m.end) false v.table) _
      (Unmap.unmap m.start m.end false v.table) _
      (unmap-IsReleased m.start m.end false v.table aligned lt top half pg)
      (λ u h. (
        q u.table_after,
        λ x b same.
            h.0 x (omega (arith, same))
            ∙ changed_out m.start (page_end m.end) unmapped x (virt_to_phys 3 v.table x)
                (λ le c. omega (arith, le, b)),
      ))

-- The mapping at the root of the tree is unmapped, where all of its pages are mapped: a mapping that
-- stands before it is found no more, for its range can be locked before, and not afterwards, though
-- every page of it in the same half of the address space is translated as it was. The root's range
-- starts at a page, lies in one half, and ends at least 4095 bytes below 2^64.
pub unmap_hides :
    (k m : VmoMapping) (l r : Tree VmoMapping) (b : ℤ) (xs ys : List VmoMapping) (v : Vas)
    → Disjoint v.mappings
    → v.mappings.root ≡ node l m b r
    → elements l ≡ xs ++ (k ∷ ys)
    → m.start % 4096 ≡ 0
    → m.end + 4095 < 2 ^ 64
    → m.start / 2 ^ 48 ≡ (m.end - 1) / 2 ^ 48
    → IsPaged 3 m.start (page_end m.end) v.table
    → (lock_address_range k.start k.end false v ≢ none)
      × Yields
          (λ w.
            (lock_address_range k.start k.end false w ≡ none)
            × ((x : ℕ)
                → x < k.end
                → x / 2 ^ 48 ≡ m.start / 2 ^ 48
                → virt_to_phys 3 w.table x ≡ virt_to_phys 3 v.table x))
          (unmap_mapping m v)
unfolding lock_address_range find
unmap_hides k m l r b xs ys v d e q aligned top half pg =
    let all : elements v.mappings.root ≡ xs ++ (k ∷ (ys ++ (m ∷ elements r))) =
      ap elements e
      ∙ ap (λ zs. zs ++ (m ∷ elements r)) q
      ∙ append_assoc xs (k ∷ ys) (m ∷ elements r) in
    let sorted = subst (IsSorted precedes) all d.sorted in
    let ranges =
      All-right IsRange xs (k ∷ (ys ++ (m ∷ elements r))) (subst (All IsRange) all d.ranges) in
    let later =
      All-right (λ c. precedes k c ≡ true) ys (m ∷ elements r)
        (IsSorted-right precedes xs (k ∷ (ys ++ (m ∷ elements r))) sorted).0 in
    let root_range = (All-right IsRange ys (m ∷ elements r) ranges.1).0 in
    let before : k.end ≤ m.start = ground (arith, later.0) in
    (
      lock_found-found (element (find_mapping k.start k.end v))
          (find_mapping-own k v xs (ys ++ (m ∷ elements r)) d all),
      Yields-imp _ _ (unmap_mapping m v)
          (λ w h. (h.0, λ x lt same. h.1 x (omega (arith, lt, before)) same))
          (unmap_mapping-before m v (λ w. lock_address_range k.start k.end false w ≡ none) aligned
            (omega (arith, root_range)) top half pg
            (λ t.
              ap
                (λ root. lock_found false (
                  element (
                    Search.find (range_precedes k.start k.end) (precedes_range k.start k.end)
                      (release_in m root))))
                e
              ∙ ap (lock_found false) (
                  find-emptied k.start k.end l m b r ranges.0
                    (All-imp (λ c h. inl (ground (arith, h))) (elements r) later.1)))),
    )
