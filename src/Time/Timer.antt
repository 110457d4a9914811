-- ===== src/Time/Timer.antt =====
-- kernel/time/time.cpp: `timer`, whose events wait in a tree heap. The hardware's clock and its alarm are
-- `_update_now`, the n-th reading of which is a function's value, and `_one_shot_after`, whose last
-- argument is kept. The callbacks are taken to add no events; what they are called for is recorded. An
-- event's `valid` is told by its id, and is not changed meanwhile. The locks make an operation one step.
pub mod Served
mod Tests
use reaveros.Prelude.{
  ℕ, zero, suc, ◌+◌, ◌-◌, ◌*◌, ◌%◌, ◌^◌, Bool, true, false, Option, none, some, List, [], ◌∷◌, ◌++◌,
  ◌==◌, leb, if◌then◌else◌,
}
use reaveros.Prelude.Outcome.{Outcome, done, panic, spin, ◌>>=◌}
use reaveros.Util.TreeHeap.{TreeHeap, push_unlinked, pop}

-- `_timer_descriptor`.
pub record Event : Type 0 where
  pub id : ℕ
  pub trigger_time : ℕ

-- `timer`, with the number of readings, the events whose callbacks have been called, and the alarm.
pub record Timer : Type 0 where
  pub heap : TreeHeap Event
  pub next_id : ℕ
  pub now : ℕ
  pub readings : ℕ
  pub called : List Event
  pub alarm : Option ℕ

-- `_timer_descriptor_comparator` orders by this.
abbrev pub due_time : Event → ℕ
due_time e = e.trigger_time

-- `_update_now`.
abbrev pub update_now : (ℕ → ℕ) → Timer → Timer
update_now clock t = record t { now = clock t.readings; readings = suc t.readings }

-- The callback of an event that has been taken off the heap.
abbrev pub call : (ℕ → Bool) → Event → Timer → Timer
call valid e t = record t { called = if valid e.id then t.called ++ (e ∷ []) else t.called }

module _ (leading_zeroes : ℕ → ℕ) (clock : ℕ → ℕ) (valid : ℕ → Bool) where
  -- The loop of `_schedule_next`, at the end of which the alarm is set for the next event. A `peek` gives
  -- none exactly where the size is 0, and so does a `pop`.
  unfoldable pub serve : ℕ → Timer → Outcome Timer
  serve zero t = spin
  serve (suc fuel) t = elim (t.heap.size == 0) [
    | true ↦ done t
    | false ↦ elim (leb (t.heap.at 1).trigger_time t.now) [
      | false ↦ done (record t { alarm = some ((t.heap.at 1).trigger_time - t.now) })
      | true ↦ elim (pop due_time leading_zeroes t.heap) [
        | none ↦ done t
        | some r ↦
            let u = update_now clock (call valid r.0 (record t { heap = r.1 })) in
            elim (leb (2 ^ 63) r.0.id) [ true ↦ panic | false ↦ serve fuel u ]
      ]
    ]
  ]

  -- `_schedule_next`.
  unfoldable pub schedule_next : ℕ → Timer → Outcome Timer
  unfolding serve
  schedule_next fuel t = serve fuel (update_now clock t)

  -- `_do`: the event is `periodic` or not, and its id is returned.
  unfoldable pub add_event : ℕ → ℕ → Bool → Timer → Outcome (ℕ × Timer)
  unfolding schedule_next
  add_event fuel duration periodic t =
      let u = update_now clock t in
      let next = (u.next_id + 1) % 2 ^ 64 in
      let id = if periodic then next % 2 ^ 63 + 2 ^ 63 else next in
      if leb (2 ^ 63) next
      then panic
      else schedule_next fuel (record u {
        next_id = next;
        heap =
            push_unlinked due_time leading_zeroes
              (record { id = id; trigger_time = u.now + duration }) u.heap;
      })
        >>= λ w. done (id, w)
