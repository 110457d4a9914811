-- ===== src/Scheduler/Aggregate/Tests.antt =====
-- Runs of the scheduler of several cores of kernel/scheduler/types.cpp.
use reaveros.Prelude.{
  ℕ, ◌*◌, ◌^◌, ◌%◌, ◌≡◌, ◌⊎◌, refl, true, false, none, some, List, [], ◌∷◌, ◌++◌, arith,
}
use reaveros.Prelude.Outcome.{Outcome, done, panic, fault, ◌>>=◌}
use reaveros.Util.TreeHeap.Bits.{leading_zeroes}
use reaveros.Scheduler.Instance.{Runnable, Instance}
use reaveros.Scheduler.Instance
use reaveros.Scheduler.Aggregate.{instance_load, average_load, schedule}
use reaveros.Scheduler.Aggregate.Choice.{IsLowest, schedule-IsLowest}

abbrev thread : Runnable
thread = record { id = 4; timestamp = 9 }

-- A core on which a number of threads wait.
abbrev core : ℕ → Instance
core n = record {
  idle_thread = record { id = 0; timestamp = 0 };
  current_thread = none;
  threads = record { at = λ k. record { id = k; timestamp = k }; size = n };
  preemption = none;
}

abbrev on_core : Runnable → Instance → Outcome Instance
on_core t s = Instance.schedule leading_zeroes 7 true false t s >>= λ o. elim o [
  | none ↦ fault
  | some c ↦ done c
]

abbrev core_load : Instance → ℕ
core_load s = s.threads.size * 100 % 2 ^ 64

abbrev cores : List Instance
cores = core 3 ∷ core 1 ∷ core 1 ∷ []

schedule-IsLowest_example :
    ((cores ≡ []) × (schedule instance_load on_core thread cores ≡ panic))
    ⊎ ((before : List Instance) × (c : Instance) × (after : List Instance) × IsLowest instance_load
          on_core core_load cores before c after
        × (schedule instance_load on_core thread cores
            ≡ (on_core thread c >>= λ c'. done (before ++ (c' ∷ after)))))
schedule-IsLowest_example =
    schedule-IsLowest instance_load on_core core_load thread cores
      ((refl, omega arith), ((refl, omega arith), ((refl, omega arith), tt)))

-- The average of loads, and the fault of an aggregate without children.
average_load_sample : average_load instance_load on_core cores ≡ done 166
unfolding reaveros.Scheduler.Aggregate.load_from
average_load_sample = refl

no_children_sample : average_load instance_load on_core [] ≡ fault
unfolding reaveros.Scheduler.Aggregate.load_from
no_children_sample = refl
