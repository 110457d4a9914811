-- ===== src/Util/AvlTree/Elements.antt =====
-- The elements of the tree of kernel/util/avl_tree.h in order. Rebalancing moves none of them.
use reaveros.Prelude.{
  ◌≡◌, refl, sym, ap, subst, ◌∙◌, true, false, Option, none, some, List, [], ◌∷◌, ◌++◌, ◌>>=◌,
  append-nil, append_assoc, Holds, Holds-bind, Bool, zero, suc,
}
use reaveros.Prelude.Int.{ℤ, pos, negsuc, is_zero}
use reaveros.Util.AvlTree.{
  Tree, leaf, node, Frame, left_of, right_of, plug, rebalance_left, rebalance_right,
  rebalance_left_right, rebalance_right_left, get_balance_factor,
}
use reaveros.Util.AvlTree.Insert.{grown_left, grown_right, insert_rebalance}
use reaveros.Util.AvlTree.Erase.{erase_rebalance, replace_by_right, replace_by_next, unlink}

Holds-any {ℓ} : {B : Type ℓ} (o : Option B) → Holds (λ _. Unit {0}) o
Holds-any none = tt
Holds-any (some b) = tt

module _ {ℓ} {A : Type ℓ} where
  abbrev pub elements : Tree A → List A
  elements leaf = []
  elements (node l a b r) = elements l ++ (a ∷ elements r)

  -- What stands before and after the subtree at a location.
  abbrev pub before : List (Frame A) → List A
  before [] = []
  before (left_of a b r ∷ p) = before p
  before (right_of l a b ∷ p) = before p ++ (elements l ++ (a ∷ []))

  abbrev pub after : List (Frame A) → List A
  after [] = []
  after (left_of a b r ∷ p) = a ∷ (elements r ++ after p)
  after (right_of l a b ∷ p) = after p

  pub elements-plug :
      (t : Tree A) (p : List (Frame A)) → elements (plug t p) ≡ before p ++ (elements t ++ after p)
  unfolding plug
  elements-plug t [] = sym (append-nil (elements t))
  elements-plug t (left_of a b r ∷ p) = elements-plug (node t a b r) p ∙ simp append_assoc
  elements-plug t (right_of l a b ∷ p) = elements-plug (node l a b t) p ∙ simp append_assoc

  -- The computation, if it yields a tree, yields one with these elements.
  abbrev pub Keeps : List A → Option (Tree A) → Type ℓ
  Keeps xs = Holds (λ t. elements t ≡ xs)

  pub rebalance_right_left-Keeps :
      (l : Tree A) (a : A) (r : Tree A)
      → Keeps (elements l ++ (a ∷ elements r)) (rebalance_right_left l a r)
  unfolding rebalance_right_left
  rebalance_right_left-Keeps l a leaf = tt
  rebalance_right_left-Keeps l a (node leaf c b rr) = tt
  rebalance_right_left-Keeps l a (node (node ml m d mr) c b rr) = simp append_assoc

  pub rebalance_left_right-Keeps :
      (l : Tree A) (a : A) (r : Tree A)
      → Keeps (elements l ++ (a ∷ elements r)) (rebalance_left_right l a r)
  unfolding rebalance_left_right
  rebalance_left_right-Keeps leaf a r = tt
  rebalance_left_right-Keeps (node ll c b leaf) a r = tt
  rebalance_left_right-Keeps (node ll c b (node ml m d mr)) a r = simp append_assoc

  pub rebalance_left-Keeps :
      (l : Tree A) (a : A) (r : Tree A)
      → Keeps (elements l ++ (a ∷ elements r)) (rebalance_left l a r)
  unfolding rebalance_left
  rebalance_left-Keeps l a leaf = tt
  rebalance_left-Keeps l a (node rl c b rr) = simp append_assoc

  pub rebalance_right-Keeps :
      (l : Tree A) (a : A) (r : Tree A)
      → Keeps (elements l ++ (a ∷ elements r)) (rebalance_right l a r)
  unfolding rebalance_right
  rebalance_right-Keeps leaf a r = tt
  rebalance_right-Keeps (node ll c b lr) a r = simp append_assoc

  pub grown_right-Keeps :
      (l : Tree A) (a : A) (r : Tree A) → Keeps (elements l ++ (a ∷ elements r)) (grown_right l a r)
  unfolding grown_right
  grown_right-Keeps l a leaf = tt
  grown_right-Keeps l a (node rl c (pos n) rr) = rebalance_left-Keeps l a (node rl c (pos n) rr)
  grown_right-Keeps l a (node rl c (negsuc n) rr) =
      rebalance_right_left-Keeps l a (node rl c (negsuc n) rr)

  pub grown_left-Keeps :
      (l : Tree A) (a : A) (r : Tree A) → Keeps (elements l ++ (a ∷ elements r)) (grown_left l a r)
  unfolding grown_left
  grown_left-Keeps leaf a r = tt
  grown_left-Keeps (node ll c (pos zero) lr) a r =
      rebalance_right-Keeps (node ll c (pos zero) lr) a r
  grown_left-Keeps (node ll c (pos (suc n)) lr) a r =
      rebalance_left_right-Keeps (node ll c (pos (suc n)) lr) a r
  grown_left-Keeps (node ll c (negsuc n) lr) a r =
      rebalance_right-Keeps (node ll c (negsuc n) lr) a r

  -- Going on from a subtree with the same elements to the whole tree.
  pub plug-Keeps :
      (xs : List A) (p : List (Frame A)) (o : Option (Tree A))
      → Keeps xs o
      → Keeps (before p ++ (xs ++ after p)) (o >>= λ t. some (plug t p))
  plug-Keeps xs p none h = tt
  plug-Keeps xs p (some t) h = elements-plug t p ∙ ap (λ ys. before p ++ (ys ++ after p)) h

  -- The elements at a child's location are those at its parent's.
  shift_right :
      (l : Tree A) (a : A) (xs : List A) (p : List (Frame A)) (o : Option (Tree A))
      → Keeps (before p ++ ((elements l ++ (a ∷ xs)) ++ after p)) o
      → Keeps ((before p ++ (elements l ++ (a ∷ []))) ++ (xs ++ after p)) o
  shift_right l a xs p o h = subst (λ ys. Keeps ys o) (simp append_assoc) h

  shift_left :
      (a : A) (r : Tree A) (xs : List A) (p : List (Frame A)) (o : Option (Tree A))
      → Keeps (before p ++ ((xs ++ (a ∷ elements r)) ++ after p)) o
      → Keeps (before p ++ (xs ++ (a ∷ (elements r ++ after p)))) o
  shift_left a r xs p o h = subst (λ ys. Keeps ys o) (simp append_assoc) h

  -- The loop of `insert` changes no element and no order.
  pub insert_rebalance-Keeps :
      (t : Tree A) (p : List (Frame A))
      → Keeps (before p ++ (elements t ++ after p)) (insert_rebalance t p)
  unfolding insert_rebalance
  insert_rebalance-Keeps t [] = sym (append-nil (elements t))
  insert_rebalance-Keeps t (right_of l a (pos zero) ∷ p) =
      shift_right l a (elements t) p _ (insert_rebalance-Keeps (node l a (pos 1) t) p)
  insert_rebalance-Keeps t (right_of l a (pos (suc n)) ∷ p) =
      shift_right l a (elements t) p _ (plug-Keeps _ p _ (grown_right-Keeps l a t))
  insert_rebalance-Keeps t (right_of l a (negsuc n) ∷ p) =
      shift_right l a (elements t) p (some (plug (node l a (pos 0) t) p))
        (elements-plug (node l a (pos 0) t) p)
  insert_rebalance-Keeps t (left_of a (pos zero) r ∷ p) =
      shift_left a r (elements t) p _ (insert_rebalance-Keeps (node t a (negsuc 0) r) p)
  insert_rebalance-Keeps t (left_of a (pos (suc n)) r ∷ p) =
      shift_left a r (elements t) p (some (plug (node t a (pos 0) r) p))
        (elements-plug (node t a (pos 0) r) p)
  insert_rebalance-Keeps t (left_of a (negsuc n) r ∷ p) =
      shift_left a r (elements t) p _ (plug-Keeps _ p _ (grown_left-Keeps t a r))

  -- After a rotation of `erase`: the loop ends, or it goes on from the subtree `u`.
  settle :
      (d : Bool) (u : Tree A) (p : List (Frame A)) (xs : List A)
      → elements u ≡ xs
      → Keeps (before p ++ (elements u ++ after p)) (erase_rebalance u p)
      → Keeps
          (before p ++ (xs ++ after p))
          (elim d [ true ↦ some (plug u p) | false ↦ erase_rebalance u p ])
  settle true u p xs e h = elements-plug u p ∙ ap (λ ys. before p ++ (ys ++ after p)) e
  settle false u p xs e h =
      subst (λ ys. Keeps (before p ++ (ys ++ after p)) (erase_rebalance u p)) e h

  -- The loop of `erase` changes no element and no order.
  pub erase_rebalance-Keeps :
      (t : Tree A) (p : List (Frame A))
      → Keeps (before p ++ (elements t ++ after p)) (erase_rebalance t p)
  unfolding erase_rebalance
  erase_rebalance-Keeps t [] = sym (append-nil (elements t))
  erase_rebalance-Keeps t (right_of l a (pos zero) ∷ p) =
      shift_right l a (elements t) p (some (plug (node l a (negsuc 0) t) p))
        (elements-plug (node l a (negsuc 0) t) p)
  erase_rebalance-Keeps t (right_of l a (pos (suc n)) ∷ p) =
      shift_right l a (elements t) p _ (erase_rebalance-Keeps (node l a (pos 0) t) p)
  erase_rebalance-Keeps t (right_of l a (negsuc n) ∷ p) = shift_right l a (elements t) p _ (
      Holds-bind (λ _. Unit {0}) _ (get_balance_factor l) _ (Holds-any _)
        λ c _.
          Holds-bind _ _ (grown_left l a t) _ (grown_left-Keeps l a t)
            λ u e. settle (is_zero c) u p _ e (erase_rebalance-Keeps u p))
  erase_rebalance-Keeps t (left_of a (pos zero) r ∷ p) =
      shift_left a r (elements t) p (some (plug (node t a (pos 1) r) p))
        (elements-plug (node t a (pos 1) r) p)
  erase_rebalance-Keeps t (left_of a (pos (suc n)) r ∷ p) = shift_left a r (elements t) p _ (
      Holds-bind (λ _. Unit {0}) _ (get_balance_factor r) _ (Holds-any _)
        λ c _.
          Holds-bind _ _ (grown_right t a r) _ (grown_right-Keeps t a r)
            λ u e. settle (is_zero c) u p _ e (erase_rebalance-Keeps u p))
  erase_rebalance-Keeps t (left_of a (negsuc n) r ∷ p) =
      shift_left a r (elements t) p _ (erase_rebalance-Keeps (node t a (pos 0) r) p)

  before-append : (q p : List (Frame A)) → before (q ++ p) ≡ before p ++ before q
  before-append [] p = sym (append-nil (before p))
  before-append (left_of a b r ∷ q) p = before-append q p
  before-append (right_of l a b ∷ q) p = rw (before-append q p) (append_assoc (before p) _ _)

  after-append : (q p : List (Frame A)) → after (q ++ p) ≡ after q ++ after p
  after-append [] p = refl
  after-append (left_of a b r ∷ q) p = rw (after-append q p) (simp append_assoc)
  after-append (right_of l a b ∷ q) p = after-append q p

  -- Below `next` there are only left turns, so nothing stands between the erased element and the
  -- leftmost element.
  replace_by_next-Keeps :
      (l : Tree A) (b : ℤ) (p : List (Frame A)) (nl : Tree A) (c : A) (d : ℤ) (nr : Tree A)
      (q : List (Frame A))
      → before q ≡ []
      → Keeps
          (before p ++ (elements l ++ (elements nl ++ (c ∷ (elements nr ++ (after q ++ after p))))))
          (replace_by_next l b p nl c d nr q)
  unfolding replace_by_next
  replace_by_next-Keeps l b p leaf c d nr q h =
      subst (λ ys. Keeps ys (erase_rebalance nr (q ++ (right_of l c b ∷ p))))
        (rw (before-append q (right_of l c b ∷ p), after-append q (right_of l c b ∷ p), h)
          (simp (append_assoc, append-nil)))
        (erase_rebalance-Keeps nr (q ++ (right_of l c b ∷ p)))
  replace_by_next-Keeps l b p (node ll e f lr) c d nr q h =
      subst (λ ys. Keeps ys (replace_by_next l b p ll e f lr (left_of c d nr ∷ q)))
        (simp append_assoc) (replace_by_next-Keeps l b p ll e f lr (left_of c d nr ∷ q) h)

  -- `erase` takes the one element away.
  pub unlink-Keeps :
      (l : Tree A) (b : ℤ) (r : Tree A) (p : List (Frame A))
      → Keeps (before p ++ (elements l ++ (elements r ++ after p))) (unlink l b r p)
  unfolding unlink replace_by_right
  unlink-Keeps l b leaf p = erase_rebalance-Keeps l p
  unlink-Keeps leaf b (node rl c d rr) p = erase_rebalance-Keeps (node rl c d rr) p
  unlink-Keeps (node ll e f lr) (pos zero) (node leaf c d rr) [] = simp (append_assoc, append-nil)
  unlink-Keeps (node ll e f lr) (pos (suc n)) (node leaf c d rr) [] =
      simp (append_assoc, append-nil)
  unlink-Keeps (node ll e f lr) (negsuc n) (node leaf c d rr) [] =
      subst (λ ys. Keeps ys (rebalance_right (node ll e f lr) c rr))
        (simp (append_assoc, append-nil)) (rebalance_right-Keeps (node ll e f lr) c rr)
  unlink-Keeps (node ll e f lr) b (node leaf c d rr) (g ∷ p) =
      subst (λ ys. Keeps ys (erase_rebalance rr (right_of (node ll e f lr) c b ∷ g ∷ p)))
        (simp append_assoc) (erase_rebalance-Keeps rr (right_of (node ll e f lr) c b ∷ g ∷ p))
  unlink-Keeps (node ll e f lr) b (node (node nl g h nr) c d rr) p =
      subst (λ ys. Keeps ys (replace_by_next (node ll e f lr) b p nl g h nr (left_of c d rr ∷ [])))
        (simp (append_assoc, append-nil))
        (replace_by_next-Keeps (node ll e f lr) b p nl g h nr (left_of c d rr ∷ []) refl)
