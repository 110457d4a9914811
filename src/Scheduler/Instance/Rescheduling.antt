-- ===== src/Scheduler/Instance/Rescheduling.antt =====
-- The choice of threads by `_reschedule` of kernel/scheduler/types.cpp.
use reaveros.Prelude.{
  ℕ, zero, suc, ◌+◌, ◌-◌, ◌^◌, ◌≤◌, ◌<◌, ◌≡◌, refl, sym, ap, ◌∙◌, Bool, Bool-cases, true, false,
  Option, none, some, Returns, List, [], ◌∷◌, All, leb, ◌&&◌, ◌==◌, eq_of_==, arith, inl, inr,
  length,
}
use reaveros.Util.TreeHeap.{TreeHeap, pop}
use reaveros.Util.TreeHeap.Find.{CountsZeroes}
use reaveros.Util.TreeHeap.Order.{IsHeap}
use reaveros.Util.TreeHeap.Contents.{bit, count}
use reaveros.Util.TreeHeap.Laws.{IsPopped, push_unlinked-IsPushed, pop-IsPopped}
use reaveros.Scheduler.Instance.{
  Runnable, Instance, stamp, setup_preemption, put_back, choose, reschedule,
}

-- An element that is counted has a place.
count_place :
    (f : Runnable → Bool) (at : ℕ → Runnable) (n : ℕ)
    → 1 ≤ count f at n
    → (k : ℕ) × (1 ≤ k) × (k ≤ n) × (f (at k) ≡ true)
count_place f at zero le = absurd (omega arith)
count_place f at (suc n) le = elim (Bool-cases (f (at (suc n)))) [
  | inl y ↦ (suc n, omega arith, omega arith, y)
  | inr m ↦ let (k, a, b, q) = count_place f at n (ground (arith, m)) in (k, a, omega arith, q)
]

-- A test of a thread by its identity.
abbrev pub by_id : (ℕ → Bool) → Runnable → Bool
by_id f t = f t.id

-- The threads that pass it: those that wait, and the running one.
abbrev pub held : (ℕ → Bool) → Instance → ℕ
held f s =
    (elim s.current_thread [ none ↦ 0 | some t ↦ bit (f t.id) ])
    + count (by_id f) s.threads.at s.threads.size

-- The threads that have been waiting since a time or longer.
abbrev pub since : ℕ → Runnable → Bool
since time t = leb t.timestamp time

abbrev pub waiting_since : ℕ → Instance → ℕ
waiting_since time s = count (since time) s.threads.at s.threads.size

-- Of those, the ones whose identity passes a test.
abbrev pub called_since : (ℕ → Bool) → ℕ → Runnable → Bool
called_since f time t = f t.id && since time t

abbrev pub waiting_of : (ℕ → Bool) → ℕ → Instance → ℕ
waiting_of f time s = count (called_since f time) s.threads.at s.threads.size

abbrev waiting_in : ℕ → TreeHeap Runnable → ℕ
waiting_in time h = count (since time) h.at h.size

bit_and-second : (a b : Bool) → bit (a && b) ≤ bit b
bit_and-second true b = omega arith
bit_and-second false true = omega arith
bit_and-second false false = omega arith

-- The waiting threads are ordered by their time stamps, and can be counted.
pub record IsOrdered (s : Instance) : Type 0 where
  pub order : IsHeap stamp s.threads.size s.threads.at
  pub room : s.threads.size < 2 ^ 64 - 1

not_since : (b : Bool) (now time : ℕ) → time < now → (b && leb now time) ≡ false
not_since b now time lt = ground arith

bit_and-le : (a b : Bool) → bit (a && b) ≤ bit a
bit_and-le true true = omega arith
bit_and-le true false = omega arith
bit_and-le false b = omega arith

count_and-le :
    (f : ℕ → Bool) (time : ℕ) (at : ℕ → Runnable) (n : ℕ)
    → count (called_since f time) at n ≤ count (since time) at n
count_and-le f time at zero = omega arith
count_and-le f time at (suc n) =
    omega (
      arith,
      bit_and-second (f (at (suc n)).id) (since time (at (suc n))),
      count_and-le f time at n,
    )

-- Whether the running thread passes a test of its identity.
abbrev pub is_running : (ℕ → Bool) → Instance → ℕ
is_running f s = elim s.current_thread [ none ↦ 0 | some t ↦ bit (f t.id) ]

module _ (leading_zeroes : ℕ → ℕ) (counts : CountsZeroes leading_zeroes) where
  -- The trees of waiting threads with the one that has just run.
  record IsPutBack (now : ℕ) (s : Instance) (h : TreeHeap Runnable) : Type 0 where
    order : IsHeap stamp h.size h.at
    most : h.size ≤ suc s.threads.size
    contents : (f : ℕ → Bool) → f s.idle_thread.id ≡ false → count (by_id f) h.at h.size ≡ held f s
    stamps : (time : ℕ) → time < now → waiting_in time h ≡ waiting_since time s
    called :
        (f : ℕ → Bool) (time : ℕ)
        → time < now
        → count (called_since f time) h.at h.size ≡ waiting_of f time s

  put_back-IsPutBack :
      (now : ℕ) (s : Instance) → IsOrdered s → IsPutBack now s (put_back leading_zeroes now s)
  put_back-IsPutBack now s h = from_current s.current_thread
    where
      from_current :
          (c : Option Runnable)
          → IsPutBack now
              (record s { current_thread = c })
              (put_back leading_zeroes now (record s { current_thread = c }))
      from_current none = record {
        order = h.order;
        most = omega arith;
        contents = λ f q. omega arith;
        stamps = λ time lt. refl;
        called = λ f time lt. refl;
      }
      from_current (some t) = elim (Bool-cases (t.id == s.idle_thread.id)) [
        | inl y ↦
            let same : t.id ≡ s.idle_thread.id = eq_of_== t.id s.idle_thread.id y in
            rw y (record {
              order = h.order;
              most = omega arith;
              contents = λ f q. rw (ap f same ∙ q) (omega arith);
              stamps = λ time lt. refl;
              called = λ f time lt. refl;
            })
        | inr m ↦
            let p =
              push_unlinked-IsPushed stamp leading_zeroes (record t { timestamp = now }) s.threads
                counts h.order h.room in
            rw m (record {
              order = p.order;
              most = omega (arith, p.size);
              contents = λ f q. p.contents (by_id f);
              stamps = λ time lt. p.contents (since time) ∙ ground arith;
              called = λ f time lt.
                  p.contents (called_since f time)
                  ∙ ap (λ b. bit b + waiting_of f time (record s { current_thread = some t }))
                      (not_since (f t.id) now time lt)
                  ∙ omega arith;
            })
      ]

  -- What a run of `_reschedule` keeps, and what it brings forward.
  pub record IsRescheduled (now : ℕ) (s s' : Instance) : Type 0 where
    pub ordered : IsOrdered s'
    pub idle : s'.idle_thread ≡ s.idle_thread
    pub contents : (f : ℕ → Bool) → f s.idle_thread.id ≡ false → held f s' ≡ held f s
    pub progress : (time : ℕ) → time < now → waiting_since time s' ≡ waiting_since time s - 1
    pub runs :
        (f : ℕ → Bool) (time : ℕ)
        → time < now
        → waiting_of f time s ≤ is_running f s' + waiting_of f time s'

  setup-IsRescheduled :
      (now : ℕ) (s s' : Instance)
      → IsRescheduled now s s'
      → IsRescheduled now s (setup_preemption now s')
  setup-IsRescheduled now s s' r = elim (Bool-cases (s'.threads.size == 0)) [
    | inl y ↦ rw y r
    | inr m ↦ rw m (record {
      ordered = record { order = r.ordered.order; room = r.ordered.room };
      idle = r.idle;
      contents = r.contents;
      progress = r.progress;
      runs = r.runs;
    })
  ]

  -- A least thread has waited as long as any other.
  least_since :
      (time : ℕ) (h : TreeHeap Runnable) (r : Runnable × TreeHeap Runnable)
      → IsPopped stamp leading_zeroes h r
      → waiting_in time (r.1) ≡ waiting_in time h - 1
  least_since time h r p =
      let all = p.contents (since time) in
      elim (Bool-cases (since time (r.0))) [
        | inl y ↦ let here : bit (since time (r.0)) ≡ 1 = ap bit y in omega (arith, all, here)
        | inr m ↦
            let here : bit (since time (r.0)) ≡ 0 = ap bit m in
            let none_left : 1 ≤ waiting_in time h → ⊥ = λ le.
              let (k, a, b, q) = count_place (since time) h.at h.size le in
              ground (arith, m, q, p.least k a b) in
            ground (arith, all, here, none_left)
      ]

  choose-IsRescheduled :
      (now : ℕ) (s : Instance) (h : TreeHeap Runnable)
      → IsOrdered s
      → IsPutBack now s h
      → IsRescheduled now s (choose leading_zeroes h s)
  unfolding choose
  choose-IsRescheduled now s h ord put =
      elim (pop-IsPopped stamp leading_zeroes h counts put.order
        (omega (arith, put.most, ord.room))) [
          | inl e ↦
              rw (e.1, choose)
                (record {
                  ordered = record { order = put.order; room = omega (arith, e.0) };
                  idle = refl;
                  contents = λ f q. rw q (omega arith) ∙ put.contents f q;
                  progress = λ time lt.
                      let old = put.stamps time lt in
                      let zero_here : waiting_in time h ≡ 0 = ap (count (since time) h.at) (e.0) in
                      omega (arith, old, zero_here);
                  runs = λ f time lt.
                      let old = put.called f time lt in
                      let zero_here : count (called_since f time) h.at h.size ≡ 0 =
                        ap (count (called_since f time) h.at) (e.0) in
                      omega (arith, old, zero_here);
                })
          | inr e ↦ from_popped (pop stamp leading_zeroes h) (e.1)
        ]
    where
      from_popped :
          (o : Option (Runnable × TreeHeap Runnable))
          → Returns (IsPopped stamp leading_zeroes h) o
          → IsRescheduled now s (elim o [
            | none ↦ record s { current_thread = some s.idle_thread; threads = h }
            | some r ↦ record s { current_thread = some r.0; threads = r.1 }
          ])
      from_popped none p = elim p [ ]
      from_popped (some r) p = record {
        ordered = record { order = p.order; room = omega (arith, p.size, put.most, ord.room) };
        idle = refl;
        contents = λ f q. sym (p.contents (by_id f)) ∙ put.contents f q;
        progress = λ time lt. least_since time h r p ∙ ap (λ n. n - 1) (put.stamps time lt);
        runs = λ f time lt.
            let all = p.contents (called_since f time) in
            let one = bit_and-le (f r.0.id) (since time (r.0)) in
            omega (arith, all, one, put.called f time lt);
      }

  -- On waiting threads that are ordered and fewer than 2^64 - 1, `_reschedule` keeps the order and
  -- loses none of the threads: those that wait and the running one are, by any test of their
  -- identities that the idle thread does not pass, as many as before. Of the threads that wait
  -- since a time before the timer's reading, it takes one off the queue, if there is one, and what is
  -- taken off runs.
  pub reschedule-IsRescheduled :
      (now : ℕ) (s : Instance) → IsOrdered s → IsRescheduled now s (reschedule leading_zeroes now s)
  unfolding reschedule
  reschedule-IsRescheduled now s ord = setup-IsRescheduled now s _ (
      choose-IsRescheduled now s (put_back leading_zeroes now s) ord (put_back-IsPutBack now s ord))

  -- The calls of `_reschedule` that the timer makes.
  abbrev pub reschedule_all : List ℕ → Instance → Instance
  reschedule_all [] s = s
  reschedule_all (now ∷ nows) s = reschedule_all nows (reschedule leading_zeroes now s)

  -- How many of these calls choose a thread that passes a test of its identity.
  abbrev pub times_run : (ℕ → Bool) → List ℕ → Instance → ℕ
  times_run f [] s = 0
  times_run f (now ∷ nows) s =
      is_running f (reschedule leading_zeroes now s)
      + times_run f nows (reschedule leading_zeroes now s)

  -- Every thread that waits is run: if the waiting threads are ordered and the timer interrupts at
  -- least as often as there are threads that have waited since a time, and each time after it, then
  -- none of them still waits, and by any test of identities, as many of them as pass it have been
  -- chosen to run by one of these calls: a thread that waited since the time is the running one behind
  -- one of them.
  pub reschedule_all-served :
      (nows : List ℕ) (time : ℕ) (s : Instance)
      → IsOrdered s
      → All (λ now. time < now) nows
      → waiting_since time s ≤ length nows
      → (waiting_since time (reschedule_all nows s) ≡ 0)
        × ((f : ℕ → Bool) → waiting_of f time s ≤ times_run f nows s)
  reschedule_all-served [] time s ord later enough =
      (omega arith, λ f. omega (arith, enough, count_and-le f time s.threads.at s.threads.size))
  reschedule_all-served (now ∷ nows) time s ord later enough =
      let r = reschedule-IsRescheduled now s ord in
      let rest =
        reschedule_all-served nows time (reschedule leading_zeroes now s) (r.ordered) (later.1)
          (omega (arith, r.progress time (later.0), enough)) in
      (rest.0, λ f. omega (arith, r.runs f time (later.0), rest.1 f))
