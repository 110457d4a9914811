-- ===== src/Scheduler/Aggregate.antt =====
-- The scheduler of several cores, `aggregate` of kernel/scheduler/types.cpp. Its children are the
-- list that is linked through `_next_sibling`; what `interface` declares is a parameter, so that a
-- child is the scheduler of a core or another aggregate.
pub mod Choice
mod Tests
use reaveros.Prelude.{
  ℕ, zero, suc, ◌+◌, ◌-◌, ◌*◌, ◌/◌, ◌%◌, ◌^◌, Option, none, some, List, [], ◌∷◌, ◌++◌, ◌==◌, ltb,
  if◌then◌else◌,
}
use reaveros.Prelude.Outcome.{Outcome, done, panic, fault, ◌>>=◌}
use reaveros.Scheduler.Instance.{Runnable, Instance}

-- `instance::average_load`.
abbrev pub instance_load : Instance → Outcome ℕ
instance_load s = done (s.threads.size * 100 % 2 ^ 64)

-- `aggregate::add_child`: the child comes behind the last one.
abbrev pub add_child {ℓ} : {S : Type ℓ} → S → List S → List S
add_child child [] = child ∷ []
add_child child (c ∷ cs) = c ∷ add_child child cs

module _ {ℓ} {S : Type ℓ} (load : S → Outcome ℕ) (schedule_on : Runnable → S → Outcome S) where
  -- The loop of `average_load`, and the division, which faults where there are no children.
  unfoldable pub load_from : ℕ → ℕ → List S → Outcome ℕ
  load_from child_count total [] = if child_count == 0 then fault else done (total / child_count)
  load_from child_count total (c ∷ cs) =
      load c >>= λ l. load_from (suc child_count) ((total + l) % 2 ^ 64) cs

  abbrev pub average_load : List S → Outcome ℕ
  average_load cs = load_from 0 0 cs

  -- The loop of `schedule`: `lowest` is the place of the child that has been found.
  unfoldable pub find_lowest : ℕ → List S → Option ℕ → ℕ → Outcome (Option ℕ)
  find_lowest i [] lowest lowest_al = done lowest
  find_lowest i (c ∷ cs) lowest lowest_al = load c >>= λ al.
      if ltb al lowest_al
      then find_lowest (suc i) cs (some i) al
      else find_lowest (suc i) cs lowest lowest_al

  unfoldable pub schedule_at : ℕ → Runnable → List S → Outcome (List S)
  schedule_at i t [] = fault
  schedule_at zero t (c ∷ cs) = schedule_on t c >>= λ c'. done (c' ∷ cs)
  schedule_at (suc i) t (c ∷ cs) = schedule_at i t cs >>= λ cs'. done (c ∷ cs')

  -- `aggregate::schedule`.
  unfoldable pub schedule : Runnable → List S → Outcome (List S)
  unfolding find_lowest schedule_at
  schedule t cs = find_lowest 0 cs none (2 ^ 64 - 1) >>= λ lowest. elim lowest [
    | none ↦ panic
    | some i ↦ schedule_at i t cs
  ]
