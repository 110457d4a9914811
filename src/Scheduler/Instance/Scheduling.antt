-- ===== src/Scheduler/Instance/Scheduling.antt =====
-- Threads that come to and leave the scheduler of a core in kernel/scheduler/types.cpp.
use reaveros.Prelude.{
  ℕ, ◌+◌, ◌≡◌, ◌⊎◌, refl, Bool, Bool-cases, true, false, Option, none, some, ◌==◌, ==-false, arith,
  inl, inr, Returns,
}
use reaveros.Prelude.Outcome.{done, panic, fault, Yields}
use reaveros.Util.TreeHeap.{TreeHeap, push}
use reaveros.Util.TreeHeap.Find.{CountsZeroes}
use reaveros.Util.TreeHeap.Order.{IsHeap}
use reaveros.Util.TreeHeap.Contents.{bit}
use reaveros.Util.TreeHeap.Laws.{IsPushed, push-IsPushed}
use reaveros.Scheduler.Instance.{
  Runnable, Instance, stamp, time_slice, deschedule, is_current, schedule, setup_preemption,
}
use reaveros.Scheduler.Instance.Rescheduling.{by_id, held, IsOrdered, reschedule-IsRescheduled}

module _ (leading_zeroes : ℕ → ℕ) (counts : CountsZeroes leading_zeroes) where
  -- The thread waits, what ran still runs, and the next interruption comes after a time slice.
  pub record IsScheduled (now : ℕ) (t : Runnable) (s s' : Instance) : Type 0 where
    pub order : IsHeap stamp s'.threads.size s'.threads.at
    pub current : s'.current_thread ≡ s.current_thread
    pub contents : (f : ℕ → Bool) → held f s' ≡ bit (f t.id) + held f s
    pub preemption : s'.preemption ≡ some (now + time_slice)

  placed :
      (now : ℕ) (t : Runnable) (s : Instance) (o : Option (TreeHeap Runnable))
      → Returns (IsPushed stamp leading_zeroes t s.threads) o
      → Yields (Returns (IsScheduled now t s)) (elim o [
        | none ↦ done none
        | some h ↦ done (some (setup_preemption now (record s { threads = h })))
      ])
  placed now t s none p = elim p [ ]
  placed now t s (some h) p =
      let filled : h.size == 0 ≡ false = ==-false h.size 0 (λ e. omega (arith, p.size)) in
      rw filled (record {
        order = p.order;
        current = refl;
        contents = λ f. omega (arith, p.contents (by_id f));
        preemption = refl;
      })

  -- On ordered waiting threads, fewer than 2^64 - 1, `schedule` panics exactly where interrupts are
  -- enabled or the thread is the one that runs. Else the queue is no tree of places any more exactly
  -- where no thread waits and the new one has links of a queue that it was in before; and without that
  -- the thread comes to the ordered queue of waiting threads, none of the others is lost, the running
  -- thread goes on, and it is to be interrupted after a time slice.
  pub schedule-IsScheduled :
      (now : ℕ) (interrupts_disabled linked : Bool) (t : Runnable) (s : Instance)
      → IsOrdered s
      → (((interrupts_disabled ≡ false) ⊎ (is_current s t ≡ true))
          × (schedule leading_zeroes now interrupts_disabled linked t s ≡ panic))
        ⊎ ((interrupts_disabled ≡ true)
            × (is_current s t ≡ false)
            × ((((s.threads.size ≡ 0) × (linked ≡ true))
                  × (schedule leading_zeroes now interrupts_disabled linked t s ≡ done none))
                ⊎ ((s.threads.size ≡ 0 → linked ≡ false)
                    × Yields
                        (Returns (IsScheduled now t s))
                        (schedule leading_zeroes now interrupts_disabled linked t s))))
  unfolding schedule
  schedule-IsScheduled now false linked t s ord = inl (inl refl, refl)
  schedule-IsScheduled now true linked t s ord = elim (Bool-cases (is_current s t)) [
    | inl y ↦ inl (inr y, rw y refl)
    | inr m ↦ inr (
      refl,
      m,
      rw m (elim (push-IsPushed stamp leading_zeroes linked t s.threads counts ord.order ord.room) [
        | inl e ↦ inl (e.0, rw (e.1) refl)
        | inr e ↦ inr (e.0, placed now t s (push stamp leading_zeroes linked t s.threads) e.1)
      ]),
    )
  ]

  -- On ordered waiting threads, fewer than 2^64 - 1, `deschedule` dereferences a null pointer
  -- exactly where no thread runs; else it gives the running thread with the timer's reading as its
  -- time stamp, and the rest stays in order: the threads that are left and the one that is given
  -- are those from before.
  pub deschedule_lem :
      (now : ℕ) (s : Instance)
      → IsOrdered s
      → ((s.current_thread ≡ none) × (deschedule leading_zeroes now s ≡ fault))
        ⊎ Yields
            (λ r.
              IsOrdered r.1
              × (r.0.timestamp ≡ now)
              × ((f : ℕ → Bool)
                  → f s.idle_thread.id ≡ false
                  → bit (f r.0.id) + held f r.1 ≡ held f s))
            (deschedule leading_zeroes now s)
  unfolding deschedule
  deschedule_lem now s ord = from_current s.current_thread
    where
      from_current :
          (c : Option Runnable)
          → ((c ≡ none) × (deschedule leading_zeroes now (record s { current_thread = c }) ≡ fault))
            ⊎ Yields
                (λ r.
                  IsOrdered r.1
                  × (r.0.timestamp ≡ now)
                  × ((f : ℕ → Bool)
                      → f s.idle_thread.id ≡ false
                      → bit (f r.0.id) + held f r.1 ≡ held f (record s { current_thread = c })))
                (deschedule leading_zeroes now (record s { current_thread = c }))
      from_current none = inl (refl, refl)
      from_current (some t) =
          let ord' : IsOrdered (record s { current_thread = none }) = record {
            order = ord.order;
            room = ord.room;
          } in
          let r =
            reschedule-IsRescheduled leading_zeroes counts now (record s { current_thread = none })
              ord' in
          inr (r.ordered, refl, λ f q. omega (arith, r.contents f q))
