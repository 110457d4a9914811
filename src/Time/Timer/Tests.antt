-- ===== src/Time/Timer/Tests.antt =====
-- Runs of kernel/time/time.cpp.
use reaveros.Prelude.{
  ℕ, zero, suc, ◌+◌, ◌≤◌, ◌<◌, ◌≡◌, refl, Bool, true, false, none, List, [], ◌++◌, arith, ◌==◌,
  if◌then◌else◌, All,
}
use reaveros.Prelude.Outcome.{Yields}
use reaveros.Util.TreeHeap.{TreeHeap}
use reaveros.Util.TreeHeap.Bits.{leading_zeroes, leading_zeroes-CountsZeroes}
use reaveros.Util.TreeHeap.Order.{IsHeap}
use reaveros.Util.TreeHeap.Contents.{bit, count}
use reaveros.Time.Timer.{Event, Timer, due_time, update_now, schedule_next, add_event}
use reaveros.Time.Timer.Served.{
  IsServed, total, called_of, schedule_next-IsServed, add_event-IsServed,
}

abbrev event : ℕ → ℕ → Event
event i t = record { id = i; trigger_time = t }

-- An event that is due, and one that is not.
abbrev two_events : TreeHeap Event
two_events = record { at = λ k. if k == 1 then event 1 5 else event 2 20; size = 2 }

abbrev running : Timer
running = record {
  heap = two_events;
  next_id = 2;
  now = 0;
  readings = 0;
  called = [];
  alarm = none;
}

abbrev ticking : ℕ → ℕ
ticking i = 10 + i

abbrev all_valid : ℕ → Bool
all_valid i = true

two_events-IsHeap : IsHeap due_time 2 two_events.at
two_events-IsHeap zero a b = omega (arith, a)
two_events-IsHeap (suc zero) a b = omega (arith, a)
two_events-IsHeap (suc (suc zero)) a b = omega arith
two_events-IsHeap (suc (suc (suc k))) a b = omega (arith, b)

schedule_next-IsServed_example :
    Yields
      (λ t. (fired : List Event) × IsServed all_valid fired (update_now ticking running) t)
      (schedule_next leading_zeroes ticking all_valid 3 running)
schedule_next-IsServed_example =
    schedule_next-IsServed leading_zeroes ticking all_valid 3 running leading_zeroes-CountsZeroes
      (λ i. omega arith) two_events-IsHeap refl (omega arith) (omega arith)

add_event-IsServed_example :
    Yields
      (λ r.
        (r.0 ≡ 3)
        × (fired : List Event) × ((f : Event → Bool)
            → bit (f (event 3 17)) + count f two_events.at 2
              ≡ total f fired + count f r.1.heap.at r.1.heap.size)
        × All (λ e. e.trigger_time ≤ r.1.now) fired
        × ((k : ℕ) → 1 ≤ k → k ≤ r.1.heap.size → r.1.now < (r.1.heap.at k).trigger_time)
        × (r.1.called ≡ [] ++ called_of all_valid fired))
      (add_event leading_zeroes ticking all_valid 4 7 false running)
add_event-IsServed_example =
    add_event-IsServed leading_zeroes ticking all_valid 4 7 running leading_zeroes-CountsZeroes
      (λ i. omega arith) two_events-IsHeap refl (omega arith) (omega arith) (omega arith)
