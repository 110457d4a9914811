-- ===== src/Scheduler/Process/Table.antt =====
-- The handle table of a process as a partial function from tokens to handles.
use reaveros.Prelude.{
  head?, length, ℕ, zero, suc, ◌+◌, ◌<◌, ◌≡◌, refl, sym, ap, ◌∙◌, subst, Bool, true, false, Option,
  none, some, List, ◌∷◌, ◌++◌, arith, ◌==◌, if◌then◌else◌, Bool-cases, inl, inr,
}
use reaveros.Prelude.Outcome.{panic, deref, Yields, Yields-bind, Yields-deref}
use reaveros.Util.AvlTree.{Tree, Frame}
use reaveros.Util.AvlTree.Iterator.{Iterator, null, at, element}
use reaveros.Util.AvlTree.Elements.{elements, before, after}
use reaveros.Util.AvlTree.Order.{IsSorted, insert_sorted}
use reaveros.Util.AvlTree.Lookup.{element-find, find-StandsIn, StandsIn}
use reaveros.Util.AvlTree.Balance.Erasing.{needs_double}
use reaveros.Util.AvlTree.Container.{Inserting, Erasing}
use reaveros.Util.AvlTree.Container
use reaveros.Util.AvlTree.Container.Laws.{IsValid, insert-IsValid, erase-IsValid}
use reaveros.Util.AvlTree.Keyed.{
  by_key, key_less, key_greater, by_key-IsOrder, key-IsCut, with_key, with_key-insert_sorted,
  with_key-erase, key-with_key, length-insert_sorted, key-with_key,
}
use reaveros.Util.Handle.{Handle}
use reaveros.Scheduler.Process.{
  Process, HandleStore, token_of, find_token, is_end, get_handle, token_at, choose_token,
  store_handle, register_for_token, erase_at, unregister_token,
}

-- The table is a valid tree.
abbrev pub HasTable : Process → Type 0
HasTable p = IsValid (by_key token_of) p.handles

abbrev entries : Process → List HandleStore
entries p = elements p.handles.root

abbrev handle_of : Option HandleStore → Option Handle
handle_of none = none
handle_of (some s) = some s.handle

element-find_token :
    (token : ℕ) (p : Process)
    → HasTable p
    → element (find_token token p) ≡ with_key token_of token (entries p)
unfolding find_token Container.find
element-find_token token p v =
    element-find (key_less token_of token) (key_greater token_of token) (by_key token_of)
      (key-IsCut token_of token) p.handles.root v.sorted

get_handle-entries :
    (token : ℕ) (p : Process)
    → HasTable p
    → get_handle token p ≡ handle_of (with_key token_of token (entries p))
unfolding get_handle
get_handle-entries token p v = ap handle_of (element-find_token token p v)

handle_of-none : (o : Option HandleStore) → handle_of o ≡ none → o ≡ none
handle_of-none none e = refl
handle_of-none (some s) e = cc

find_token-StandsIn : (token : ℕ) (p : Process) → StandsIn p.handles.root (find_token token p)
unfolding find_token Container.find
find_token-StandsIn token p =
    find-StandsIn (key_less token_of token) (key_greater token_of token) p.handles.root

-- The process after an operation on its table: one token is changed, and all else stands.
abbrev pub Updates : Process → ℕ → Option Handle → Process → Type 0
Updates p token v q =
    HasTable q
    × ((k : ℕ) → get_handle k q ≡ (if token == k then v else get_handle k p))
    × (q.started ≡ p.started)

-- What `erase` leaves of the table.
abbrev Erased :
    Tree HandleStore
    → HandleStore
    → Tree HandleStore
    → List (Frame HandleStore)
    → Process
    → Erasing HandleStore
    → Type 0
Erased l a r q p e =
    IsValid (by_key token_of) e.tree
    × (elements e.tree.root ≡ (before q ++ elements l) ++ (elements r ++ after q))
    × (e.next ≡ head? (elements r ++ after q))
    × (entries p ≡ (before q ++ elements l) ++ (a ∷ (elements r ++ after q)))

abbrev Stored : HandleStore → Process → Inserting HandleStore → Type 0
Stored x p r =
    IsValid (by_key token_of) r.tree
    × (elements r.tree.root ≡ insert_sorted (by_key token_of) x (entries p))
    × (length (elements r.tree.root)
        ≡ (if r.inserted then suc (length (entries p)) else length (entries p)))

inserted_of_longer : (b : Bool) (n m : ℕ) → m ≡ (if b then suc n else n) → m ≡ suc n → b ≡ true
inserted_of_longer true n m e f = refl
inserted_of_longer false n m e f = absurd (omega arith)

pub store_handle-Updates :
    (token : ℕ) (h : Handle) (p : Process)
    → HasTable p
    → get_handle token p ≡ none
    → Yields (Updates p token (some h)) (store_handle token h p)
unfolding store_handle
store_handle-Updates token h p v e =
    Yields-bind (Stored new p) _ (deref (Container.insert (by_key token_of) new p.handles)) _
      (Yields-deref (Stored new p) _
        (insert-IsValid (by_key token_of) (by_key-IsOrder token_of) new p.handles v))
      λ r k.
        rw
          (inserted_of_longer r.inserted (length (entries p)) _ k.2
            (ap length k.1 ∙ length-insert_sorted token_of new (entries p) absent))
          (k.0, λ j. look j r k, refl)
  where
    new : HandleStore
    new = record { token = token; handle = h }

    absent : with_key token_of token (entries p) ≡ none
    absent = handle_of-none _ (sym (get_handle-entries token p v) ∙ e)

    look :
        (j : ℕ) (r : Inserting HandleStore)
        → Stored new p r
        → get_handle j (record p { handles = r.tree })
          ≡ (if token == j then some h else get_handle j p)
    look j r k = ground (
      arith,
      get_handle-entries j (record p { handles = r.tree }) k.0,
      get_handle-entries j p v,
      k.1,
      with_key-insert_sorted token_of j new (entries p) absent,
    )

is_end-element : (i : Iterator HandleStore) → is_end i ≡ true → handle_of (element i) ≡ none
is_end-element null e = refl
is_end-element (at l a b r q) e = cc

element-is_end : (i : Iterator HandleStore) → handle_of (element i) ≡ none → is_end i ≡ true
element-is_end null e = refl
element-is_end (at l a b r q) e = cc

-- Of the readings from the `i`-th on, the `n`-th one after gives a token that is not in use: a fuel
-- above `n` is enough, and the token that comes out is not in use.
choose_token-unused :
    (clock : ℕ → ℕ) (fuel i n : ℕ) (h : Handle) (p : Process)
    → n < fuel
    → get_handle (token_at p h (clock (i + n))) p ≡ none
    → Yields (λ r. get_handle r.0 p ≡ none) (choose_token clock fuel i h p)
unfolding choose_token get_handle
choose_token-unused clock zero i n h p lt e = absurd (omega arith)
choose_token-unused clock (suc fuel) i n h p lt e =
    elim (Bool-cases (is_end (find_token (token_at p h (clock i)) p))) [
      | inl u ↦ rw (u, choose_token) (is_end-element (find_token (token_at p h (clock i)) p) u)
      | inr u ↦
          rw (u, choose_token) (later n lt e u (λ m. choose_token-unused clock fuel (suc i) m h p))
    ]
  where
    later :
        (n : ℕ)
        → n < suc fuel
        → get_handle (token_at p h (clock (i + n))) p ≡ none
        → is_end (find_token (token_at p h (clock i)) p) ≡ false
        → ((m : ℕ)
            → m < fuel
            → get_handle (token_at p h (clock (suc i + m))) p ≡ none
            → Yields (λ r. get_handle r.0 p ≡ none) (choose_token clock fuel (suc i) h p))
        → Yields (λ r. get_handle r.0 p ≡ none) (choose_token clock fuel (suc i) h p)
    later zero lt e u go =
        let same : i + 0 ≡ i = omega arith in
        let used : is_end (find_token (token_at p h (clock i)) p) ≡ true =
          element-is_end (find_token (token_at p h (clock i)) p)
            (subst (λ k. get_handle (token_at p h (clock k)) p ≡ none) same e) in
        cc
    later (suc m) lt e u go =
        go m (omega arith) (
          subst (λ k. get_handle (token_at p h (clock k)) p ≡ none) {x = i + suc m} (omega arith) e)

-- Where the table is valid and some reading among the next `fuel` gives a token that is not in use,
-- `register_for_token` ends, the table is valid again, and the token that it returns was not in use
-- and now stands for the handle, while every other token stands for what it did.
pub register_for_token-Updates :
    (clock : ℕ → ℕ) (fuel i n : ℕ) (h : Handle) (p : Process)
    → HasTable p
    → n < fuel
    → get_handle (token_at p h (clock (i + n))) p ≡ none
    → Yields
        (λ r. (get_handle r.token p ≡ none) × Updates p r.token (some h) r.process)
        (register_for_token clock fuel i h p)
unfolding register_for_token
register_for_token-Updates clock fuel i n h p v lt e =
    Yields-bind (λ (r : ℕ × ℕ). get_handle r.0 p ≡ none) _ (choose_token clock fuel i h p) _
      (choose_token-unused clock fuel i n h p lt e)
      λ r u.
        Yields-bind (Updates p r.0 (some h)) _ (store_handle r.0 h p) _
          (store_handle-Updates r.0 h p v u) (λ q k. (u, k))

-- The one shape of the tree in which `erase` loses its balance.
abbrev pub takes_double : Iterator HandleStore → Bool
takes_double null = false
takes_double (at l a b r q) = needs_double l b r q

erase_at-Updates :
    (i : Iterator HandleStore) (token : ℕ) (h : Handle) (p : Process)
    → HasTable p
    → StandsIn p.handles.root i
    → element i ≡ with_key token_of token (entries p)
    → handle_of (element i) ≡ some h
    → takes_double i ≡ false
    → Yields (Updates p token none) (erase_at i p)
unfolding erase_at
erase_at-Updates null token h p v s f e d = cc
erase_at-Updates (at l a b r q) token h p v s f e d =
    Yields-bind _ _ (deref (Container.erase (at l a b r q) p.handles)) _
      (Yields-deref (Erased l a r q p) _
        (erase-IsValid (by_key token_of) l a b r q p.handles v s d))
      λ x k. (
        k.0,
        λ j. ground (
          arith,
          get_handle-entries j (record p { handles = x.tree }) k.0,
          get_handle-entries j p v,
          k.1,
          k.3,
          with_key-erase token_of j (before q ++ elements l) a (elements r ++ after q)
              (subst (IsSorted (by_key token_of)) k.3 v.sorted),
          key-with_key token_of token (entries p) a (sym f),
        ),
        refl,
      )

-- `unregister_token` of a token in use takes away this token alone, and leaves the table valid, if it
-- was valid and its tree is not of the shape in which `erase` takes a double rotation.
pub unregister_token-Updates :
    (token : ℕ) (h : Handle) (p : Process)
    → HasTable p
    → get_handle token p ≡ some h
    → takes_double (find_token token p) ≡ false
    → Yields (Updates p token none) (unregister_token token p)
unfolding unregister_token get_handle
unregister_token-Updates token h p v e d =
    erase_at-Updates (find_token token p) token h p v (find_token-StandsIn token p)
      (element-find_token token p v) e d

-- `unregister_token` of a token that is not in use is a panic.
pub unregister_token-panic :
    (token : ℕ) (p : Process) → get_handle token p ≡ none → unregister_token token p ≡ panic
unfolding unregister_token get_handle
unregister_token-panic token p e = no_element (find_token token p) e
  where
    no_element : (i : Iterator HandleStore) → handle_of (element i) ≡ none → erase_at i p ≡ panic
    no_element null e = unfold erase_at in refl
    no_element (at l a b r q) e = cc
