-- ===== src/Time/Timer/Served.antt =====
-- What `_schedule_next` of kernel/time/time.cpp does.
use reaveros.Prelude.{
  ℕ, zero, suc, ◌+◌, ◌-◌, ◌%◌, ◌^◌, ◌≤◌, ◌<◌, ◌≡◌, refl, sym, ◌∙◌, Bool, true, false, Option, none,
  some, List, [], ◌∷◌, ◌++◌, append-nil, append_assoc, arith, ◌==◌, leb, ltb, if◌then◌else◌,
  eq_of_==, ne_of_==, Bool-cases, All, inl, inr, Returns,
}
use reaveros.Prelude.Outcome.{done, Yields, Yields-imp, Yields-bind}
use reaveros.Util.TreeHeap.{TreeHeap, pop, push_unlinked}
use reaveros.Util.TreeHeap.Find.{CountsZeroes}
use reaveros.Util.TreeHeap.Order.{IsHeap}
use reaveros.Util.TreeHeap.Down.{IsHeap-least}
use reaveros.Util.TreeHeap.Contents.{bit, count}
use reaveros.Util.TreeHeap.Laws.{IsPopped, pop-IsPopped, push_unlinked-IsPushed}
use reaveros.Time.Timer.{Event, Timer, due_time, update_now, call, serve, schedule_next, add_event}

-- How many of the events the test holds of.
abbrev pub total : (Event → Bool) → List Event → ℕ
total f [] = 0
total f (e ∷ es) = bit (f e) + total f es

-- The events whose callbacks are called.
abbrev pub called_of : (ℕ → Bool) → List Event → List Event
called_of valid [] = []
called_of valid (e ∷ es) = if valid e.id then e ∷ called_of valid es else called_of valid es

-- Each event is due no later than those behind it.
abbrev pub InOrder : List Event → Type 0
InOrder [] = Unit
InOrder (e ∷ es) = All (λ f. e.trigger_time ≤ f.trigger_time) es × InOrder es

-- Whether an event is due before a time, and whether it is periodic.
abbrev pub below : ℕ → Event → Bool
below b e = ltb e.trigger_time b

abbrev pub is_periodic : Event → Bool
is_periodic e = leb (2 ^ 63) e.id

-- The events were taken off the heap in the order in which they were due: the valid ones were called;
-- they all were due, and none of the others is, for the next of which the alarm is set.
pub record IsServed (valid : ℕ → Bool) (fired : List Event) (s t : Timer) : Type 0 where
  pub order : IsHeap due_time t.heap.size t.heap.at
  pub contents :
      (f : Event → Bool)
      → count f s.heap.at s.heap.size ≡ total f fired + count f t.heap.at t.heap.size
  pub called : t.called ≡ s.called ++ called_of valid fired
  pub due : All (λ e. e.trigger_time ≤ t.now) fired
  pub sorted : InOrder fired
  pub bound :
      (b : ℕ) → count (below b) s.heap.at s.heap.size ≡ 0 → All (λ e. b ≤ e.trigger_time) fired
  pub waiting : (k : ℕ) → 1 ≤ k → k ≤ t.heap.size → t.now < (t.heap.at k).trigger_time
  pub alarm : 1 ≤ t.heap.size → t.alarm ≡ some ((t.heap.at 1).trigger_time - t.now)
  pub later : s.now ≤ t.now

count-none :
    (f : Event → Bool) (at : ℕ → Event) (n : ℕ)
    → ((k : ℕ) → 1 ≤ k → k ≤ n → f (at k) ≡ false)
    → count f at n ≡ 0
count-none f at zero h = refl
count-none f at (suc n) h =
    rw (h (suc n) (omega arith) (omega arith))
      (omega (arith, count-none f at n (λ k a b. h k a (omega (arith, b)))))

bit-zero : (b : Bool) (n : ℕ) → bit b + n ≡ 0 → (b ≡ false) × (n ≡ 0)
bit-zero true n e = let x : ⊥ = omega (arith, e) in elim x [ ]
bit-zero false n e = (refl, omega (arith, e))

-- Nothing is served.
unserved :
    (valid : ℕ → Bool) (s : Timer) (a : Option ℕ)
    → IsHeap due_time s.heap.size s.heap.at
    → ((k : ℕ) → 1 ≤ k → k ≤ s.heap.size → s.now < (s.heap.at k).trigger_time)
    → (1 ≤ s.heap.size → a ≡ some ((s.heap.at 1).trigger_time - s.now))
    → IsServed valid [] s (record s { alarm = a })
unserved valid s a order waiting alarm = record {
  order = order;
  contents = λ f. omega arith;
  called = sym (append-nil s.called);
  due = tt;
  sorted = tt;
  bound = λ b h. tt;
  waiting = waiting;
  alarm = alarm;
  later = omega arith;
}

called_of-cons :
    (valid : ℕ → Bool) (e : Event) (xs fired : List Event)
    → (if valid e.id then xs ++ (e ∷ []) else xs) ++ called_of valid fired
      ≡ xs ++ called_of valid (e ∷ fired)
called_of-cons valid e xs fired = elim (Bool-cases (valid e.id)) [
  | inl y ↦ rw y (append_assoc xs (e ∷ []) (called_of valid fired))
  | inr y ↦ rw y refl
]

returned : {A : Type 0} (P : A → Type 0) (o : Option A) → Returns P o → (a : A) × (o ≡ some a) × P a
returned P none h = elim h [ ]
returned P (some a) h = (a, refl, h)

module _ (leading_zeroes : ℕ → ℕ) (clock : ℕ → ℕ) (valid : ℕ → Bool) where
  -- An event is taken off, and the others are served after it.
  after_one :
      (s t : Timer) (r : Event × TreeHeap Event) (fired : List Event)
      → ((i : ℕ) → clock i ≤ clock (suc i))
      → s.now ≤ clock s.readings
      → r.0.trigger_time ≤ s.now
      → 1 ≤ s.heap.size
      → IsPopped due_time leading_zeroes s.heap r
      → IsServed valid fired (update_now clock (call valid r.0 (record s { heap = r.1 }))) t
      → IsServed valid (r.0 ∷ fired) s t
  after_one s t r fired mono past due some_there p q =
      let rest : count (below r.0.trigger_time) r.1.at r.1.size ≡ 0 =
        (bit-zero (below r.0.trigger_time r.0) (count (below r.0.trigger_time) r.1.at r.1.size) (
          sym (p.contents (below r.0.trigger_time))
          ∙ count-none (below r.0.trigger_time) s.heap.at s.heap.size
              (λ k a b. ground (arith, p.least k a b)))).1 in
      record {
        order = q.order;
        contents = λ f. omega (arith, p.contents f, q.contents f);
        called = q.called ∙ called_of-cons valid r.0 s.called fired;
        due = (omega (arith, due, past, q.later), q.due);
        sorted = (q.bound r.0.trigger_time rest, q.sorted);
        bound = λ b h.
            let z =
              bit-zero (below b r.0) (count (below b) r.1.at r.1.size)
                (sym (p.contents (below b)) ∙ h) in
            (ground (arith, z.0), q.bound b z.1);
        waiting = q.waiting;
        alarm = q.alarm;
        later = omega (arith, past, q.later);
      }

  -- The loop, with a round for each event and one more.
  serve-IsServed :
      (fuel : ℕ) (s : Timer)
      → CountsZeroes leading_zeroes
      → ((i : ℕ) → clock i ≤ clock (suc i))
      → s.now ≤ clock s.readings
      → IsHeap due_time s.heap.size s.heap.at
      → count is_periodic s.heap.at s.heap.size ≡ 0
      → s.heap.size < 2 ^ 64
      → s.heap.size < fuel
      → Yields
          (λ t. (fired : List Event) × IsServed valid fired s t)
          (serve leading_zeroes clock valid fuel s)
  unfolding serve
  serve-IsServed zero s counts mono past order none_periodic top lt =
      let x : ⊥ = omega (arith, lt) in elim x [ ]
  serve-IsServed (suc fuel) s counts mono past order none_periodic top lt =
      elim (Bool-cases (s.heap.size == 0)) [
        | inl y ↦
            let e : s.heap.size ≡ 0 = eq_of_== s.heap.size 0 y in
            rw (y, serve)
              (
                [],
                unserved valid s s.alarm order
                    (λ k a b. let x : ⊥ = omega (arith, e, a, b) in elim x [ ])
                    (λ a. let x : ⊥ = omega (arith, e, a) in elim x [ ]),
              )
        | inr y ↦ elim (Bool-cases (leb (s.heap.at 1).trigger_time s.now)) [
          | inr z ↦
              rw (y, serve)
                (rw (z, serve)
                  (
                    [],
                    unserved valid s (some ((s.heap.at 1).trigger_time - s.now)) order
                        (λ k a b. ground (
                          arith,
                          z,
                          IsHeap-least due_time s.heap.size s.heap.size k s.heap.at order a b b,
                        ))
                        (λ a. refl),
                  ))
          | inl z ↦ elim (pop-IsPopped due_time leading_zeroes s.heap counts order top) [
            | inl g ↦ let x : ⊥ = ne_of_== s.heap.size 0 y g.0 in elim x [ ]
            | inr g ↦
                let v =
                  returned (IsPopped due_time leading_zeroes s.heap)
                    (pop due_time leading_zeroes s.heap) g.1 in
                let r = v.0 in
                let p = v.2 in
                let least : r.0.trigger_time ≤ (s.heap.at 1).trigger_time =
                  p.least 1 (omega arith) g.0 in
                let due : r.0.trigger_time ≤ s.now = ground (arith, least, z) in
                let n =
                  bit-zero (is_periodic r.0) (count is_periodic r.1.at r.1.size)
                    (sym (p.contents is_periodic) ∙ none_periodic) in
                rw (y, serve)
                  (rw (z, serve)
                    (rw (v.1, serve)
                      (rw (n.0, serve)
                        (Yields-imp
                          (λ t.
                            (fired : List Event) × IsServed valid fired
                              (update_now clock (call valid r.0 (record s { heap = r.1 }))) t)
                          (λ t. (fired : List Event) × IsServed valid fired s t)
                          (serve leading_zeroes clock valid fuel
                            (update_now clock (call valid r.0 (record s { heap = r.1 }))))
                          (λ t k. (r.0 ∷ k.0, after_one s t r k.0 mono past due g.0 p k.1))
                          (serve-IsServed fuel
                            (update_now clock (call valid r.0 (record s { heap = r.1 }))) counts
                            mono (mono s.readings) p.order n.1 (omega (arith, p.size, top))
                            (omega (arith, p.size, lt)))))))
          ]
        ]
      ]

  -- With a clock that does not go back, and a function that counts the leading zero bits, `_schedule_next`
  -- on a timer with events in order, none of them periodic, ends within one more round than there are
  -- events. It takes off events in the order in which they are due, and exactly the valid of them are
  -- called; each of them is due at the end, and none of the others is, for the first of which the alarm
  -- is set.
  pub schedule_next-IsServed :
      (fuel : ℕ) (s : Timer)
      → CountsZeroes leading_zeroes
      → ((i : ℕ) → clock i ≤ clock (suc i))
      → IsHeap due_time s.heap.size s.heap.at
      → count is_periodic s.heap.at s.heap.size ≡ 0
      → s.heap.size < 2 ^ 64
      → s.heap.size < fuel
      → Yields
          (λ t. (fired : List Event) × IsServed valid fired (update_now clock s) t)
          (schedule_next leading_zeroes clock valid fuel s)
  unfolding schedule_next
  schedule_next-IsServed fuel s counts mono order none_periodic top lt =
      serve-IsServed fuel (update_now clock s) counts mono (mono s.readings) order none_periodic top
        lt

  -- Adding an event that is not periodic gives it the next id, while that is below 2^63; then the event
  -- and those that waited are served as above: each of them is taken off or waits on.
  pub add_event-IsServed :
      (fuel duration : ℕ) (s : Timer)
      → CountsZeroes leading_zeroes
      → ((i : ℕ) → clock i ≤ clock (suc i))
      → IsHeap due_time s.heap.size s.heap.at
      → count is_periodic s.heap.at s.heap.size ≡ 0
      → s.heap.size < 2 ^ 64 - 1
      → s.heap.size + 1 < fuel
      → s.next_id + 1 < 2 ^ 63
      → Yields
          (λ r.
            (r.0 ≡ s.next_id + 1)
            × (fired : List Event) × ((f : Event → Bool)
                → bit (
                      f (record { id = s.next_id + 1; trigger_time = clock s.readings + duration }))
                    + count f s.heap.at s.heap.size
                  ≡ total f fired + count f r.1.heap.at r.1.heap.size)
            × All (λ e. e.trigger_time ≤ r.1.now) fired
            × ((k : ℕ) → 1 ≤ k → k ≤ r.1.heap.size → r.1.now < (r.1.heap.at k).trigger_time)
            × (r.1.called ≡ s.called ++ called_of valid fired))
          (add_event leading_zeroes clock valid fuel duration false s)
  unfolding add_event
  add_event-IsServed fuel duration s counts mono order none_periodic top lt ids =
      let e : Event = record { id = s.next_id + 1; trigger_time = clock s.readings + duration } in
      let next : (s.next_id + 1) % 2 ^ 64 ≡ s.next_id + 1 = omega (arith, ids) in
      let small : leb (2 ^ 63) (s.next_id + 1) ≡ false = ground (arith, ids) in
      let p = push_unlinked-IsPushed due_time leading_zeroes e s.heap counts order top in
      let u : Timer = record (update_now clock s) {
        next_id = s.next_id + 1;
        heap = push_unlinked due_time leading_zeroes e s.heap;
      } in
      rw (next, small)
        (Yields-bind (λ t. (fired : List Event) × IsServed valid fired (update_now clock u) t) _
          (schedule_next leading_zeroes clock valid fuel u) (λ w. done (s.next_id + 1, w))
          (schedule_next-IsServed fuel u counts mono p.order
            (p.contents is_periodic ∙ rw (small, none_periodic) refl) (omega (arith, p.size, top))
            (omega (arith, p.size, lt)))
          (λ t k. (
            refl,
            k.0,
            (λ f. sym (p.contents f) ∙ k.1.contents f),
            k.1.due,
            k.1.waiting,
            k.1.called,
          )))
