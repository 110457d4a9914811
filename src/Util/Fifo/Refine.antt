-- ===== src/Util/Fifo/Refine.antt =====
-- The queue of kernel/util/fifo.h implements lists: an element is appended at the back and taken off
-- the front.
use reaveros.Prelude.{
  ℕ, ◌+◌, ◌-◌, ◌%◌, ◌^◌, ◌≡◌, ◌≢◌, refl, sym, ap, ◌∙◌, subst, Option, none, some, List, [], ◌∷◌,
  ◌++◌, arith, length, length-append, All, All-append, ==-refl, ==-false,
}
use reaveros.Util.Fifo.{State, appended, push_back, pop_front}

-- From an address on, the links lead through the elements to the null pointer.
abbrev pub IsChain : (ℕ → ℕ) → ℕ → List ℕ → Type 0
IsChain next a [] = a ≡ 0
IsChain next a (x ∷ xs) = (a ≡ x) × (x ≢ 0) × IsChain next (next x) xs

abbrev pub IsDistinct : List ℕ → Type 0
IsDistinct [] = Unit
IsDistinct (x ∷ xs) = All (λ y. x ≢ y) xs × IsDistinct xs

-- The last element, where there is one.
abbrev pub IsLast : ℕ → List ℕ → Type 0
IsLast t [] = Unit
IsLast t (x ∷ []) = t ≡ x
IsLast t (x ∷ y ∷ xs) = IsLast t (y ∷ xs)

-- The queue holds these elements, in order.
pub record Holds (s : State) (xs : List ℕ) : Type 0 where
  pub chain : IsChain s.next s.fifo.head xs
  pub tail : IsLast s.fifo.tail xs
  pub distinct : IsDistinct xs
  pub counted : s.fifo.size ≡ length xs % 2 ^ 64

All-last : (P : ℕ → Type 0) (x : ℕ) (xs : List ℕ) (t : ℕ) → All P (x ∷ xs) → IsLast t (x ∷ xs) → P t
All-last P x [] t h l = subst P (sym l) h.0
All-last P x (y ∷ xs) t h l = All-last P y xs t h.1 l

IsLast-append : (xs : List ℕ) (e : ℕ) → IsLast e (xs ++ (e ∷ []))
IsLast-append [] e = refl
IsLast-append (x ∷ []) e = refl
IsLast-append (x ∷ y ∷ xs) e = IsLast-append (y ∷ xs) e

IsDistinct-append :
    (xs : List ℕ) (e : ℕ) → IsDistinct xs → All (λ y. y ≢ e) xs → IsDistinct (xs ++ (e ∷ []))
IsDistinct-append [] e d n = (tt, tt)
IsDistinct-append (x ∷ xs) e d n =
    (All-append _ xs (e ∷ []) d.0 (n.0, tt), IsDistinct-append xs e d.1 n.1)

appended-tail : (t e : ℕ) (next : ℕ → ℕ) → t ≢ e → appended t e next t ≡ e
appended-tail t e next n = ground arith

appended-new : (t e : ℕ) (next : ℕ → ℕ) → appended t e next e ≡ 0
appended-new t e next = ground arith

appended-other : (t e a : ℕ) (next : ℕ → ℕ) → a ≢ t → a ≢ e → appended t e next a ≡ next a
appended-other t e a next n m = ground arith

IsChain-appended :
    (next : ℕ → ℕ) (a x : ℕ) (xs : List ℕ) (t e : ℕ)
    → IsChain next a (x ∷ xs)
    → IsLast t (x ∷ xs)
    → IsDistinct (x ∷ xs)
    → All (λ y. y ≢ e) (x ∷ xs)
    → e ≢ 0
    → IsChain (appended t e next) a ((x ∷ xs) ++ (e ∷ []))
IsChain-appended next a x [] t e c l d n z =
    let at : appended t e next x ≡ e = rw (sym l) (appended-tail t e next (λ q. n.0 (sym l ∙ q))) in
    (c.0, c.1, (at, z, appended-new t e next))
IsChain-appended next a x (y ∷ xs) t e c l d n z =
    let other : appended t e next x ≡ next x =
      appended-other t e x next (All-last (λ k. x ≢ k) y xs t d.0 l) n.0 in
    (
      c.0,
      c.1,
      subst (λ k. IsChain (appended t e next) k ((y ∷ xs) ++ (e ∷ []))) (sym other)
          (IsChain-appended next (next x) y xs t e c.2 l d.1 n.1 z),
    )

-- Appending an element that is no null pointer and not in the queue.
pub push_back-Holds :
    (e : ℕ) (s : State) (xs : List ℕ)
    → e ≢ 0
    → All (λ y. y ≢ e) xs
    → Holds s xs
    → Holds (push_back e s) (xs ++ (e ∷ []))
unfolding push_back
push_back-Holds e s [] z n h =
    rw (==-refl s.fifo.head 0 h.chain, push_back)
      (record {
        chain = (refl, z, ground arith);
        tail = refl;
        distinct = (tt, tt);
        counted = omega (arith, h.counted);
      })
push_back-Holds e s (x ∷ xs) z n h =
    rw (==-false s.fifo.head 0 (λ q. h.chain.1 (sym h.chain.0 ∙ q)), push_back)
      (record {
        chain =
            IsChain-appended s.next s.fifo.head x xs s.fifo.tail e h.chain h.tail h.distinct n z;
        tail =
            subst (λ t. IsLast t ((x ∷ xs) ++ (e ∷ [])))
              (sym (
                appended-tail s.fifo.tail e s.next
                  (All-last (λ y. y ≢ e) x xs s.fifo.tail n h.tail)))
              (IsLast-append (x ∷ xs) e);
        distinct = IsDistinct-append (x ∷ xs) e h.distinct n;
        counted = omega (arith, h.counted, length-append xs (e ∷ []));
      })

pub pop_front-none : (s : State) → Holds s [] → pop_front s ≡ none
unfolding pop_front
pop_front-none s h = rw (==-refl s.fifo.head 0 h.chain, pop_front) refl

IsLast-rest : (t x : ℕ) (xs : List ℕ) → IsLast t (x ∷ xs) → IsLast t xs
IsLast-rest t x [] l = tt
IsLast-rest t x (y ∷ xs) l = l

-- The queue without its first element.
pub pop_front-some :
    (s : State) (x : ℕ) (xs : List ℕ)
    → Holds s (x ∷ xs)
    → (s' : State) × (pop_front s ≡ some (x, s')) × Holds s' xs
unfolding pop_front
pop_front-some s x xs h =
    rw (==-false s.fifo.head 0 (λ q. h.chain.1 (sym h.chain.0 ∙ q)), pop_front)
      (
        taken,
        ap (λ k. some (k, taken)) h.chain.0,
        record {
          chain = rw h.chain.0 h.chain.2;
          tail = IsLast-rest s.fifo.tail x xs h.tail;
          distinct = h.distinct.1;
          counted = omega (arith, h.counted);
        },
      )
  where
    taken : State
    taken = record s {
      fifo = record (s.fifo) {
        head = s.next s.fifo.head;
        size = (s.fifo.size + (2 ^ 64 - 1)) % 2 ^ 64;
      };
    }

-- A client's calls.
pub data Op : Type 0 where
  push : ℕ → Op
  pop : Op

-- The outputs of a run of calls: what each `pop` returns.
unfoldable pub run : List Op → State → List (Option ℕ)
run [] s = []
run (push e ∷ ops) s = run ops (push_back e s)
run (pop ∷ ops) s = elim (pop_front s) [
  | none ↦ none ∷ run ops s
  | some (x, t) ↦ some x ∷ run ops t
]

-- The same calls on a list.
unfoldable pub run_list : List Op → List ℕ → List (Option ℕ)
run_list [] xs = []
run_list (push e ∷ ops) xs = run_list ops (xs ++ (e ∷ []))
run_list (pop ∷ ops) [] = none ∷ run_list ops []
run_list (pop ∷ ops) (x ∷ xs) = some x ∷ run_list ops xs

-- Only elements are pushed that are no null pointers and not in the queue already.
abbrev pub IsAllowed : List Op → List ℕ → Type 0
IsAllowed [] xs = Unit
IsAllowed (push e ∷ ops) xs = (e ≢ 0) × All (λ y. y ≢ e) xs × IsAllowed ops (xs ++ (e ∷ []))
IsAllowed (pop ∷ ops) [] = IsAllowed ops []
IsAllowed (pop ∷ ops) (x ∷ xs) = IsAllowed ops xs

-- The queue cannot be told from a list: any sequence of calls that never pushes a null pointer or an
-- element that is in the queue already returns what the same calls on the list of its elements return.
pub run_refines :
    (ops : List Op) (s : State) (xs : List ℕ)
    → Holds s xs
    → IsAllowed ops xs
    → run ops s ≡ run_list ops xs
unfolding run run_list
run_refines [] s xs h ok = refl
run_refines (push e ∷ ops) s xs h ok =
    run_refines ops (push_back e s) (xs ++ (e ∷ [])) (push_back-Holds e s xs ok.0 ok.1 h) ok.2
run_refines (pop ∷ ops) s [] h ok =
    rw (pop_front-none s h, run) (ap (λ r. none ∷ r) (run_refines ops s [] h ok))
run_refines (pop ∷ ops) s (x ∷ xs) h ok =
    let (t, e, k) = pop_front-some s x xs h in
    rw (e, run) (ap (λ r. some x ∷ r) (run_refines ops t xs k ok))
