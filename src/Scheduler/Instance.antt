-- ===== src/Scheduler/Instance.antt =====
-- The scheduler of one core, `instance` of kernel/scheduler/types.cpp. A thread is its identity and its
-- time stamp; the timer's reading is an argument. The messages to other cores and the switch of the
-- address space are left out, and each operation runs on the core that it belongs to.
pub mod Rescheduling
pub mod Scheduling
mod Tests
use reaveros.Prelude.{ℕ, ◌+◌, Bool, true, false, Option, none, some, ◌==◌, not, if◌then◌else◌}
use reaveros.Prelude.Outcome.{Outcome, done, panic, fault}
use reaveros.Util.TreeHeap.{TreeHeap, push_unlinked, push, pop}

-- The part of `thread` that is used.
pub record Runnable : Type 0 where
  pub id : ℕ
  pub timestamp : ℕ

-- `instance`; `preemption` is the time at which the running thread is to be interrupted.
pub record Instance : Type 0 where
  pub idle_thread : Runnable
  pub current_thread : Option Runnable
  pub threads : TreeHeap Runnable
  pub preemption : Option ℕ

-- std::chrono::seconds(1) / 100, in nanoseconds.
abbrev pub time_slice : ℕ
time_slice = 10000000

-- `_thread_timestamp_compare`.
abbrev pub stamp : Runnable → ℕ
stamp t = t.timestamp

-- `_setup_preemption`.
abbrev pub setup_preemption : ℕ → Instance → Instance
setup_preemption now s =
    if s.threads.size == 0 then s else (record s { preemption = some (now + time_slice) })

abbrev pub is_current : Instance → Runnable → Bool
is_current s t = elim s.current_thread [ none ↦ false | some c ↦ c.id == t.id ]

module _ (leading_zeroes : ℕ → ℕ) where
  -- The start of `_reschedule`: the running thread, unless it is the idle one, waits from now on. It
  -- has links only where it was taken off a queue of several threads, which is then not empty.
  abbrev pub put_back : ℕ → Instance → TreeHeap Runnable
  put_back now s = elim s.current_thread [
    | none ↦ s.threads
    | some t ↦
        if t.id == s.idle_thread.id
        then s.threads
        else push_unlinked stamp leading_zeroes (record t { timestamp = now }) s.threads
  ]

  -- The choice of the next thread: `pop` gives none exactly where the size is 0.
  unfoldable pub choose : TreeHeap Runnable → Instance → Instance
  choose waiting s = elim (pop stamp leading_zeroes waiting) [
    | none ↦ record s { current_thread = some s.idle_thread; threads = waiting }
    | some r ↦ record s { current_thread = some r.0; threads = r.1 }
  ]

  -- `_reschedule`.
  unfoldable pub reschedule : ℕ → Instance → Instance
  unfolding choose
  reschedule now s = setup_preemption now (choose (put_back now s) s)

  -- `deschedule`: the running thread is taken off the core.
  unfoldable pub deschedule : ℕ → Instance → Outcome (Runnable × Instance)
  unfolding reschedule
  deschedule now s = elim s.current_thread [
    | none ↦ fault
    | some t ↦
        done (record t { timestamp = now }, reschedule now (record s { current_thread = none }))
  ]

  -- `schedule` of a thread, of which `linked` says whether it has links of a queue that it was in before;
  -- none where the threads that wait are no tree of places any more.
  unfoldable pub schedule : ℕ → Bool → Bool → Runnable → Instance → Outcome (Option Instance)
  unfolding push
  schedule now interrupts_disabled linked t s =
      if not interrupts_disabled
      then panic
      else if is_current s t
      then panic
      else elim (push stamp leading_zeroes linked t s.threads) [
        | none ↦ done none
        | some h ↦ done (some (setup_preemption now (record s { threads = h })))
      ]
