-- ===== src/Scheduler/Instance/Tests.antt =====
-- Runs of the scheduler of kernel/scheduler/types.cpp.
use reaveros.Prelude.{
  ℕ, zero, suc, ◌+◌, ◌/◌, ◌≤◌, ◌≡◌, ◌⊎◌, refl, Bool, true, false, none, some, [], ◌∷◌, ◌==◌, arith,
  Returns, if◌then◌else◌,
}
use reaveros.Prelude.Outcome.{done, panic, fault, Yields}
use reaveros.Util.TreeHeap.Contents.{bit}
use reaveros.Scheduler.Instance.Scheduling.{IsScheduled, schedule-IsScheduled, deschedule_lem}
use reaveros.Util.TreeHeap.Bits.{bit_length, leading_zeroes, leading_zeroes-CountsZeroes}
use reaveros.Scheduler.Instance.{
  Runnable, Instance, stamp, is_current, schedule, deschedule, reschedule,
}
use reaveros.Scheduler.Instance.Rescheduling.{
  IsOrdered, IsRescheduled, held, waiting_since, waiting_of, times_run, reschedule_all,
  reschedule-IsRescheduled, reschedule_all-served,
}

abbrev thread : ℕ → ℕ → Runnable
thread i t = record { id = i; timestamp = t }

-- The thread 3 runs, and 1 and 2 wait.
abbrev busy : Instance
busy = record {
  idle_thread = thread 0 0;
  current_thread = some (thread 3 0);
  threads = record { at = λ k. if k == 1 then thread 1 5 else thread 2 8; size = 2 };
  preemption = none;
}

busy-IsOrdered : IsOrdered busy
busy-IsOrdered = record { order = order; room = omega arith }
  where
    order : (k : ℕ) → 2 ≤ k → k ≤ 2 → stamp (busy.threads.at (k / 2)) ≤ stamp (busy.threads.at k)
    order zero a b = absurd (omega arith)
    order (suc zero) a b = absurd (omega arith)
    order (suc (suc zero)) a b = omega arith
    order (suc (suc (suc k))) a b = absurd (omega arith)

reschedule-IsRescheduled_example :
    IsRescheduled leading_zeroes leading_zeroes-CountsZeroes 10 busy
      (reschedule leading_zeroes 10 busy)
reschedule-IsRescheduled_example =
    reschedule-IsRescheduled leading_zeroes leading_zeroes-CountsZeroes 10 busy busy-IsOrdered

reschedule_all-served_example :
    (waiting_since 8 (reschedule_all leading_zeroes leading_zeroes-CountsZeroes (10 ∷ 20 ∷ []) busy)
      ≡ 0)
    × ((f : ℕ → Bool)
        → waiting_of f 8 busy
          ≤ times_run leading_zeroes leading_zeroes-CountsZeroes f (10 ∷ 20 ∷ []) busy)
reschedule_all-served_example =
    reschedule_all-served leading_zeroes leading_zeroes-CountsZeroes (10 ∷ 20 ∷ []) 8 busy
      busy-IsOrdered (omega arith, (omega arith, tt)) (omega arith)

-- The thread that has waited longest runs, and is to be interrupted after its time slice.
longest_waiting_run : (reschedule leading_zeroes 10 busy).current_thread ≡ some (thread 1 5)
unfolding reschedule bit_length reaveros.Util.TreeHeap.pop reaveros.Util.TreeHeap.push_unlinked
longest_waiting_run = refl

-- A thread that runs is not to be scheduled.
schedule_current_run : schedule leading_zeroes 10 true false (thread 3 0) busy ≡ panic
unfolding schedule
schedule_current_run = refl

schedule-IsScheduled_example :
    (((true ≡ false) ⊎ (is_current busy (thread 4 9) ≡ true))
      × (schedule leading_zeroes 10 true false (thread 4 9) busy ≡ panic))
    ⊎ ((true ≡ true)
        × (is_current busy (thread 4 9) ≡ false)
        × ((((busy.threads.size ≡ 0) × (false ≡ true))
              × (schedule leading_zeroes 10 true false (thread 4 9) busy ≡ done none))
            ⊎ ((busy.threads.size ≡ 0 → false ≡ false)
                × Yields
                    (Returns
                      (IsScheduled leading_zeroes leading_zeroes-CountsZeroes 10 (thread 4 9) busy))
                    (schedule leading_zeroes 10 true false (thread 4 9) busy))))
schedule-IsScheduled_example =
    schedule-IsScheduled leading_zeroes leading_zeroes-CountsZeroes 10 true false (thread 4 9) busy
      busy-IsOrdered

deschedule_lem_example :
    ((busy.current_thread ≡ none) × (deschedule leading_zeroes 10 busy ≡ fault))
    ⊎ Yields
        (λ r.
          IsOrdered r.1
          × (r.0.timestamp ≡ 10)
          × ((f : ℕ → Bool) → f 0 ≡ false → bit (f r.0.id) + held f r.1 ≡ held f busy))
        (deschedule leading_zeroes 10 busy)
deschedule_lem_example =
    deschedule_lem leading_zeroes leading_zeroes-CountsZeroes 10 busy busy-IsOrdered
