-- ===== src/Util/Mp.antt =====
-- kernel/util/mp.h and mp.cpp: a core has other cores run a function, by a queue of items per core. An
-- item is its address, and 0 is the null pointer: the items are allotted once, one for each pair of
-- cores, and used again by every call. A function is told by the `ipi_queue_state` of its call, and is
-- taken not to send items itself; what has been run, and where, is recorded. The lock of a queue makes
-- each change of it one step. Interrupts are a sequence of cores, in the order in which they drain.
pub mod Stale
pub mod Counts
pub mod Rounds
mod Tests
use reaveros.Prelude.{
  ℕ, zero, suc, ◌+◌, ◌-◌, ◌*◌, ◌%◌, ◌^◌, Bool, true, false, Option, none, some, List, [], ◌∷◌, ◌++◌,
  ◌==◌, if◌then◌else◌,
}
use reaveros.Prelude.Outcome.{Outcome, done, spin, ◌>>=◌}

-- A function that has been run on a core.
pub record Run : Type 0 where
  pub core : ℕ
  pub state : ℕ

-- The fields of the items, the heads and tails of the queues, and the counts of the calls.
pub record Machine : Type 0 where
  pub next : ℕ → ℕ
  pub state_of : ℕ → ℕ
  pub head : ℕ → ℕ
  pub tail : ℕ → ℕ
  pub unfinished_cores : ℕ → ℕ
  pub ran : List Run

abbrev pub write : ℕ → ℕ → (ℕ → ℕ) → ℕ → ℕ
write a v f b = if a == b then v else f b

-- `ipi_queue::push`, which leaves the item's own link as it is.
unfoldable pub push : ℕ → ℕ → Machine → Machine
push core item m =
    if m.head core == 0
    then (record m { head = write core item m.head; tail = write core item m.tail })
    else (record m { next = write (m.tail core) item m.next; tail = write core item m.tail })

-- The part of `drain` under the lock.
abbrev pub take_item : ℕ → Machine → Machine
take_item core m = record m { head = write core (m.next (m.head core)) m.head }

-- The rest of a round: the function is run, and counted.
abbrev pub finish_item : ℕ → ℕ → Machine → Machine
finish_item core item m = record m {
  unfinished_cores =
      write (m.state_of item) ((m.unfinished_cores (m.state_of item) + (2 ^ 64 - 1)) % 2 ^ 64)
        m.unfinished_cores;
  ran = m.ran ++ (record { core = core; state = m.state_of item } ∷ []);
}

-- `ipi_queue::drain`.
unfoldable pub drain : ℕ → ℕ → Machine → Outcome Machine
drain zero core m = spin
drain (suc fuel) core m = elim (m.head core == 0) [
  | true ↦ done m
  | false ↦ drain fuel core (finish_item core (m.head core) (take_item core m))
]

-- outgoing_ipi_items[self_id * core_count + target].
abbrev pub item_of : ℕ → ℕ → ℕ → ℕ
item_of core_count self target = suc (self * core_count + target)

-- The item for a core is filled and queued.
abbrev pub send : ℕ → ℕ → ℕ → Machine → Machine
send item target state m = push target item (record m { state_of = write item state m.state_of })

-- The policies of `erased_parallel_execute`: the loop over all cores, from the `i`-th on, and one core.
unfoldable pub send_all : ℕ → ℕ → ℕ → ℕ → ℕ → Machine → Machine
send_all core_count self state i zero m = m
send_all core_count self state i (suc k) m =
    let counted = record m {
      unfinished_cores = write state ((m.unfinished_cores state + 1) % 2 ^ 64) m.unfinished_cores;
    } in
    send_all core_count self state (suc i) k (send (item_of core_count self i) i state counted)

unfoldable pub execute_all : ℕ → ℕ → ℕ → Machine → Machine
unfolding send_all
execute_all core_count self state m =
    send_all core_count self state 0 core_count
      (record m { unfinished_cores = write state 0 m.unfinished_cores })

unfoldable pub execute_specific : ℕ → ℕ → ℕ → ℕ → Machine → Machine
execute_specific core_count self target state m =
    send (item_of core_count self target) target state
      (record m { unfinished_cores = write state 1 m.unfinished_cores })

-- The cores that drain their queues, in order: by the interrupt, or in the loop that waits for the
-- count to come to 0.
unfoldable pub drain_all : ℕ → List ℕ → Machine → Outcome Machine
unfolding drain
drain_all fuel [] m = done m
drain_all fuel (core ∷ cores) m = drain fuel core m >>= λ n. drain_all fuel cores n
