-- ===== src/Util/TreeHeap/Laws.antt =====
-- What `push` and `pop` of kernel/util/tree_heap.h do.
use reaveros.Prelude.{
  ℕ, zero, suc, ◌+◌, ◌-◌, ◌*◌, ◌/◌, ◌^◌, ◌≤◌, ◌<◌, ◌≡◌, ◌⊎◌, refl, sym, ap, ◌∙◌, subst, Bool,
  Bool-cases, none, Returns, ltb, leb, ◌==◌, arith, inl, inr, if◌then◌else◌, ==-refl, ==-false,
  eq_of_==, ne_of_==, true, false, some,
}
use reaveros.Util.TreeHeap.{TreeHeap, put, sift_up, sift_down, push_unlinked, push, pop}
use reaveros.Util.TreeHeap.Find.{CountsZeroes, get_nth_lem}
use reaveros.Util.TreeHeap.Order.{IsHeap, IsUp, sift_up-IsHeap}
use reaveros.Util.TreeHeap.Down.{IsDown, sift_down-IsHeap, IsHeap-least}
use reaveros.Util.TreeHeap.Contents.{
  bit, count, count-put, count-put_out, count-sift_up, count-sift_down,
}

Returns-else {ℓ κ} :
    {A : Type ℓ} (b : Bool) (P : A → Type κ) (a : A)
    → b ≡ false
    → P a
    → Returns P (if b then none else some a)
Returns-else b P a e p = rw e p

module _ {ℓ} {A : Type ℓ} (key : A → ℕ) (leading_zeroes : ℕ → ℕ) where
  -- The element is added to those of the heap.
  pub record IsPushed (element : A) (h h' : TreeHeap A) : Type ℓ where
    pub order : IsHeap key h'.size h'.at
    pub size : h'.size ≡ suc h.size
    pub contents : (f : A → Bool) → count f h'.at h'.size ≡ bit (f element) + count f h.at h.size

  -- A least element of the heap, and the heap without it.
  pub record IsPopped (h : TreeHeap A) (r : A × TreeHeap A) : Type ℓ where
    pub order : IsHeap key r.1.size r.1.at
    pub size : suc r.1.size ≡ h.size
    pub least : (k : ℕ) → 1 ≤ k → k ≤ h.size → key r.0 ≤ key (h.at k)
    pub contents : (f : A → Bool) → count f h.at h.size ≡ bit (f r.0) + count f r.1.at r.1.size

  -- A new element in the first free place.
  placed-IsUp :
      (n : ℕ) (element : A) (at : ℕ → A)
      → IsHeap key n at
      → IsUp key (suc n) (suc n) (put (suc n) element at)
  placed-IsUp n element at h = record {
    edges = λ k a b c.
        rw (==-false (suc n) (k / 2) (λ e. omega arith), ==-false (suc n) k (λ e. c (sym e)))
          (h k a (omega (arith, c)));
    bridged = λ k a b c. absurd (omega arith);
  }

  free_place :
      (n : ℕ)
      → 1 ≤ n
      → (if leb (2 * ((n + 1) / 2)) n then 2 * ((n + 1) / 2) + 1 else 2 * ((n + 1) / 2)) ≡ suc n
  free_place n low = ground arith

  pushed :
      (n : ℕ) (element : A) (at : ℕ → A)
      → IsHeap key n at
      → IsPushed element
          (record { at = at; size = n })
          (record { at = sift_up key (suc n) (suc n) (put (suc n) element at); size = suc n })
  pushed n element at h = record {
    order =
        sift_up-IsHeap key (suc n) (suc n) (suc n) (put (suc n) element at) (omega arith)
          (omega arith) (omega arith) (placed-IsUp n element at h);
    size = refl;
    contents = λ f.
        count-sift_up key f (suc n) (suc n) (suc n) (put (suc n) element at) (omega arith)
          (omega arith)
        ∙ ap (λ a. bit (f a) + count f (put (suc n) element at) n)
            (rw (==-refl (suc n) (suc n) refl) refl)
        ∙ ap (λ c. bit (f element) + c) (count-put_out key f (suc n) n element at (omega arith));
  }

  push_unlinked-run :
      (n : ℕ) (element : A) (at : ℕ → A)
      → CountsZeroes leading_zeroes
      → 1 ≤ n
      → n < 2 ^ 64 - 1
      → push_unlinked key leading_zeroes element (record { at = at; size = n })
        ≡ record { at = sift_up key (suc n) (suc n) (put (suc n) element at); size = suc n }
  unfolding push_unlinked
  push_unlinked-run n element at counts low top =
      rw
        (
          ==-false n 0 (λ e. omega arith),
          get_nth_lem leading_zeroes ((n + 1) / 2) counts (omega arith) (omega arith),
          free_place n low,
        )
        refl

  pub push_unlinked-IsPushed :
      (element : A) (h : TreeHeap A)
      → CountsZeroes leading_zeroes
      → IsHeap key h.size h.at
      → h.size < 2 ^ 64 - 1
      → IsPushed element h (push_unlinked key leading_zeroes element h)
  unfolding push_unlinked
  push_unlinked-IsPushed element h counts order top = elim (Bool-cases (h.size == 0)) [
    | inl y ↦
        let none_there : h.size ≡ 0 = eq_of_== h.size 0 y in
        rw (y, none_there)
          (record { order = λ k a b. absurd (omega arith); size = refl; contents = λ f. refl })
    | inr m ↦
        subst (IsPushed element h)
          (sym (push_unlinked-run h.size element h.at counts (ground (arith, m)) top))
          (pushed h.size element h.at order)
  ]

  -- If the compiler's function counts the leading zero bits, `push` on a tree in order whose size is
  -- below 2^64 - 1 leaves no tree of places exactly where the tree is empty and the element has links of
  -- a tree that it was in before; else it keeps the tree in order, and adds the element to those that
  -- it has.
  pub push-IsPushed :
      (linked : Bool) (element : A) (h : TreeHeap A)
      → CountsZeroes leading_zeroes
      → IsHeap key h.size h.at
      → h.size < 2 ^ 64 - 1
      → (((h.size ≡ 0) × (linked ≡ true)) × (push key leading_zeroes linked element h ≡ none))
        ⊎ ((h.size ≡ 0 → linked ≡ false)
            × Returns (IsPushed element h) (push key leading_zeroes linked element h))
  unfolding push
  push-IsPushed false element h counts order top =
      inr (λ e. refl, push_unlinked-IsPushed element h counts order top)
  push-IsPushed true element h counts order top = elim (Bool-cases (h.size == 0)) [
    | inl y ↦ inl ((eq_of_== h.size 0 y, refl), rw y refl)
    | inr m ↦ inr (
      λ e. absurd (ne_of_== h.size 0 m e),
      Returns-else (h.size == 0) (IsPushed element h) (push_unlinked key leading_zeroes element h) m
          (push_unlinked-IsPushed element h counts order top),
    )
  ]

  -- The last element in the place of the top.
  replaced-IsDown :
      (n : ℕ) (e : A) (at : ℕ → A) → IsHeap key (suc n) at → IsDown key n 1 (put 1 e at)
  replaced-IsDown n e at h = record {
    edges = λ k a b c.
        rw (==-false 1 (k / 2) (λ q. c (sym q)), ==-false 1 k (λ q. omega arith))
          (h k a (omega arith));
    bridged = λ k a b c. absurd (omega arith);
  }

  popped :
      (n : ℕ) (at : ℕ → A)
      → 1 ≤ n
      → IsHeap key (suc n) at
      → IsPopped
          (record { at = at; size = suc n })
          (at 1, record { at = sift_down key (suc n) n 1 (put 1 (at (suc n)) at); size = n })
  popped n at low h = record {
    order =
        sift_down-IsHeap key n (suc n) 1 (put 1 (at (suc n)) at) (omega arith) (omega arith)
          (replaced-IsDown n (at (suc n)) at h);
    size = refl;
    least = λ k a b. IsHeap-least key (suc n) (suc n) k at h a b b;
    contents = λ f.
        let moved = count-put key f 1 n (at (suc n)) at (omega arith) low in
        let sifted = count-sift_down key f n (suc n) 1 (put 1 (at (suc n)) at) (omega arith) low in
        omega (arith, moved, sifted);
  }

  less_one : (n : ℕ) → suc n - 1 ≡ n
  less_one n = omega arith

  -- A tree of two elements.
  two-IsHeap : (at : ℕ → A) → key (at 1) ≤ key (at 2) → IsHeap key 2 at
  two-IsHeap at le k a b = subst (λ k. key (at (k / 2)) ≤ key (at k)) (omega arith) le

  least_of :
      (n : ℕ) (at : ℕ → A) → IsHeap key n at → (k : ℕ) → 1 ≤ k → k ≤ n → key (at 1) ≤ key (at k)
  least_of n at h k a b = IsHeap-least key n n k at h a b b

  -- The small trees that `pop` treats on their own.
  three_left :
      (at : ℕ → A)
      → IsHeap key 3 at
      → IsPopped
          (record { at = at; size = 3 })
          (
            at 1,
            record {
              at =
                  if ltb (key (at 2)) (key (at 3))
                  then put 2 (at 3) (put 1 (at 2) at)
                  else put 1 (at 3) at;
              size = 2;
            },
          )
  three_left at h = elim (Bool-cases (ltb (key (at 2)) (key (at 3)))) [
    | inl y ↦ rw y (record {
      order = two-IsHeap (put 2 (at 3) (put 1 (at 2) at)) (ground (arith, y));
      size = refl;
      least = least_of 3 at h;
      contents = λ f. omega arith;
    })
    | inr m ↦ rw m (record {
      order = two-IsHeap (put 1 (at 3) at) (ground (arith, m));
      size = refl;
      least = least_of 3 at h;
      contents = λ f. omega arith;
    })
  ]

  -- If the compiler's function counts the leading zero bits, `pop` of a tree in order whose size is
  -- below 2^64 gives nothing exactly if the tree is empty; else it gives an element that is not
  -- greater than any of the tree's, and leaves a tree in order of all the others.
  pub pop-IsPopped :
      (h : TreeHeap A)
      → CountsZeroes leading_zeroes
      → IsHeap key h.size h.at
      → h.size < 2 ^ 64
      → ((h.size ≡ 0) × (pop key leading_zeroes h ≡ none))
        ⊎ ((1 ≤ h.size) × Returns (IsPopped h) (pop key leading_zeroes h))
  unfolding pop
  pop-IsPopped h counts order top = by_size h.size h.at order top
    where
      by_size :
          (n : ℕ) (at : ℕ → A)
          → IsHeap key n at
          → n < 2 ^ 64
          → ((n ≡ 0) × (pop key leading_zeroes (record { at = at; size = n }) ≡ none))
            ⊎ ((1 ≤ n)
                × Returns
                    (IsPopped (record { at = at; size = n }))
                    (pop key leading_zeroes (record { at = at; size = n })))
      by_size zero at h top = inl (refl, refl)
      by_size (suc zero) at h top = inr (
        omega arith,
        record {
          order = λ k a b. absurd (omega arith);
          size = refl;
          least = least_of 1 at h;
          contents = λ f. omega arith;
        },
      )
      by_size (suc (suc zero)) at h top = inr (
        omega arith,
        record {
          order = λ k a b. absurd (omega arith);
          size = refl;
          least = least_of 2 at h;
          contents = λ f. omega arith;
        },
      )
      by_size (suc (suc (suc zero))) at h top = inr (omega arith, three_left at h)
      by_size (suc (suc (suc (suc n)))) at h top = inr (
        omega arith,
        rw
            (
              get_nth_lem leading_zeroes (suc (suc (suc (suc n)))) counts (omega arith) top,
              ==-false (suc (suc (suc (suc n)))) 0 (λ e. omega arith),
              ==-false (suc (suc (suc (suc n)))) 1 (λ e. omega arith),
              ==-false (suc (suc (suc (suc n)))) 2 (λ e. omega arith),
              ==-false (suc (suc (suc (suc n)))) 3 (λ e. omega arith),
              less_one (suc (suc (suc n))),
            )
            (popped (suc (suc (suc n))) at (omega arith) h),
      )
