-- ===== src/Util/Mp/Rounds.antt =====
-- A call of `parallel_execute` for all cores in kernel/util/mp.cpp, under every order of the drains.
use reaveros.Prelude.{
  ℕ, zero, suc, ◌+◌, ◌%◌, ◌^◌, ◌≤◌, ◌<◌, ◌≡◌, ◌≢◌, ◌⊎◌, inl, inr, refl, sym, ap, ◌∙◌, subst,
  Bool-cases, true, false, not, List, [], ◌∷◌, All, ◌==◌, ==-refl, ==-false, eq_of_==, ne_of_==,
  arith,
}
use reaveros.Prelude.Outcome.{done, Yields, Yields-imp}
use reaveros.Util.Mp.{
  Machine, write, push, take_item, finish_item, drain, item_of, send, send_all, execute_all,
  drain_all,
}
use reaveros.Util.Mp.Stale.{write_self, write_other}
use reaveros.Util.Mp.Counts.{
  bit, pend, pend-write, pend-zero, pend-le, pend-sent, next_count, runs_of, runs_of-append, IsIn,
}

-- No queue has an item, and no item is linked.
pub record IsQuiet (core_count : ℕ) (m : Machine) : Type 0 where
  pub empty : (j : ℕ) → j < core_count → m.head j ≡ 0
  pub unlinked : (x : ℕ) → m.next x ≡ 0

module _ (core_count self state : ℕ) (before : Machine) where
  abbrev item : ℕ → ℕ
  item i = item_of core_count self i

  -- The cores below `sent` have been sent their item, and some of them have drained it.
  record IsPending (sent : ℕ) (m : Machine) : Type 0 where
    unlinked : (x : ℕ) → m.next x ≡ 0
    mine :
        (j : ℕ) → j < sent → (m.head j ≡ 0) ⊎ ((m.head j ≡ item j) × (m.state_of (item j) ≡ state))
    idle : (j : ℕ) → sent ≤ j → j < core_count → m.head j ≡ 0
    counted : m.unfinished_cores state ≡ pend m.head sent
    once :
        (j : ℕ)
        → j < sent
        → runs_of j state m.ran + bit (not (m.head j == 0)) ≡ suc (runs_of j state before.ran)
    none_yet : (j : ℕ) → sent ≤ j → runs_of j state m.ran ≡ runs_of j state before.ran

  -- One queue is drained.
  drain_one :
      (fuel core : ℕ) (m : Machine)
      → m.head core ≢ 0
      → ((x : ℕ) → m.next x ≡ 0)
      → drain (suc (suc fuel)) core m ≡ done (finish_item core (m.head core) (take_item core m))
  unfolding drain
  drain_one fuel core m ne un =
      let m' = finish_item core (m.head core) (take_item core m) in
      rw (==-false (m.head core) 0 ne, drain)
        (rw (==-refl (m'.head core) 0 (write_self core _ m.head ∙ un (m.head core)), drain) refl)

  drain_none : (fuel core : ℕ) (m : Machine) → m.head core ≡ 0 → drain (suc fuel) core m ≡ done m
  unfolding drain
  drain_none fuel core m q = rw (==-refl (m.head core) 0 q, drain) refl

  -- What the drain of a queue with an item changes.
  finish-IsPending :
      (core : ℕ) (m : Machine)
      → core_count < 2 ^ 64
      → core < core_count
      → m.head core ≢ 0
      → IsPending core_count m
      → IsPending core_count (finish_item core (m.head core) (take_item core m))
  finish-IsPending core m small lt ne p =
      let (at, st) = sent_item (p.mine core lt) in
      let state' : m.state_of (m.head core) ≡ state = ap m.state_of at ∙ st in
      let gone : m.next (m.head core) ≡ 0 = p.unlinked (m.head core) in
      let fewer = pend-write m.head core core_count lt ne in
      let most = pend-le m.head core_count in
      rw (gone, state')
        (record {
          unlinked = p.unlinked;
          mine = λ j jlt. elim (Bool-cases (core == j)) [
            | inl y ↦ inl (rw y refl)
            | inr n ↦ rw n (p.mine j jlt)
          ];
          idle = λ j le jlt. absurd (omega arith);
          counted = write_self state _ m.unfinished_cores ∙ (omega (arith, p.counted, fewer, most));
          once = λ j jlt.
              let more =
                runs_of-append j state m.ran (record { core = core; state = state } ∷ []) in
              let old = p.once j jlt in
              elim (Bool-cases (core == j)) [
                | inl y ↦
                    let held : m.head j == 0 ≡ false =
                      ==-false (m.head j) 0 (λ e. ne (ap m.head (eq_of_== core j y) ∙ e)) in
                    let was : runs_of j state m.ran + 1 ≡ suc (runs_of j state before.ran) =
                      ap (λ b. runs_of j state m.ran + bit (not b)) (sym held) ∙ old in
                    rw (more, y, ==-refl state state refl) (omega (arith, was))
                | inr n ↦ rw (more, n) (omega (arith, old))
              ];
          none_yet = λ j le.
              let more =
                runs_of-append j state m.ran (record { core = core; state = state } ∷ []) in
              rw (more, ==-false core j (λ e. omega arith)) (omega (arith, p.none_yet j le));
        })
    where
      sent_item :
          (m.head core ≡ 0) ⊎ ((m.head core ≡ item core) × (m.state_of (item core) ≡ state))
          → (m.head core ≡ item core) × (m.state_of (item core) ≡ state)
      sent_item (inl e) = absurd (ne e)
      sent_item (inr q) = q

  -- What a sequence of drains leaves.
  record IsAfter (order : List ℕ) (m n : Machine) : Type 0 where
    pending : IsPending core_count n
    drained : (j : ℕ) → (m.head j ≡ 0) ⊎ IsIn j order → n.head j ≡ 0

  drain_all-IsAfter :
      (fuel : ℕ) (order : List ℕ) (m : Machine)
      → core_count < 2 ^ 64
      → All (λ j. j < core_count) order
      → IsPending core_count m
      → Yields (IsAfter order m) (drain_all (suc (suc fuel)) order m)
  unfolding drain_all
  drain_all-IsAfter fuel [] m small lts p = record { pending = p; drained = λ j h. still j h }
    where
      still : (j : ℕ) → (m.head j ≡ 0) ⊎ IsIn j [] → m.head j ≡ 0
      still j (inl e) = e
      still j (inr e) = elim e [ ]
  drain_all-IsAfter fuel (core ∷ order) m small lts p = elim (Bool-cases (m.head core == 0)) [
    | inl y ↦
        let e : m.head core ≡ 0 = eq_of_== (m.head core) 0 y in
        rw (drain_none (suc fuel) core m e) (
          Yields-imp (IsAfter order m) _ _
            (λ n a. record { pending = a.pending; drained = λ j h. a.drained j (here_or j e h) })
            (drain_all-IsAfter fuel order m small (lts.1) p))
    | inr k ↦
        let ne : m.head core ≢ 0 = ne_of_== (m.head core) 0 k in
        let m' = finish_item core (m.head core) (take_item core m) in
        rw (drain_one fuel core m ne p.unlinked) (
          Yields-imp (IsAfter order m') _ _
            (λ n a. record { pending = a.pending; drained = λ j h. a.drained j (gone_or j h) })
            (drain_all-IsAfter fuel order m' small (lts.1)
              (finish-IsPending core m small (lts.0) ne p)))
  ]
    where
      here_or :
          (j : ℕ)
          → m.head core ≡ 0
          → (m.head j ≡ 0) ⊎ ((j ≡ core) ⊎ IsIn j order)
          → (m.head j ≡ 0) ⊎ IsIn j order
      here_or j e (inl q) = inl q
      here_or j e (inr (inl q)) = inl (ap m.head q ∙ e)
      here_or j e (inr (inr q)) = inr q

      gone_or :
          (j : ℕ)
          → (m.head j ≡ 0) ⊎ ((j ≡ core) ⊎ IsIn j order)
          → (write core (m.next (m.head core)) m.head j ≡ 0) ⊎ IsIn j order
      gone_or j (inl q) = inl (write_zero j q)
        where
          write_zero : (j : ℕ) → m.head j ≡ 0 → write core (m.next (m.head core)) m.head j ≡ 0
          write_zero j q = elim (Bool-cases (core == j)) [
            | inl y ↦ rw y (p.unlinked (m.head core))
            | inr n ↦ rw n q
          ]
      gone_or j (inr (inl q)) =
          inl (ap (write core _ m.head) q ∙ write_self core _ m.head ∙ p.unlinked (m.head core))
      gone_or j (inr (inr q)) = inr q

  -- One round of the loop that sends.
  send-IsPending :
      (i : ℕ) (m : Machine)
      → core_count < 2 ^ 64
      → i < core_count
      → IsPending i m
      → IsPending (suc i) (
          send (item i) i state (record m {
            unfinished_cores =
                write state ((m.unfinished_cores state + 1) % 2 ^ 64) m.unfinished_cores;
          }))
  unfolding push
  send-IsPending i m small lt p =
      let free : m.head i ≡ 0 = p.idle i (omega arith) lt in
      let most = pend-le m.head i in
      rw (==-refl (m.head i) 0 free) (record {
        unlinked = p.unlinked;
        mine = λ j jlt. elim (Bool-cases (i == j)) [
          | inl y ↦
              let q : i ≡ j = eq_of_== i j y in
              inr (
                rw y (ap item q),
                ap (write (item i) state m.state_of) (ap item (sym q))
                    ∙ write_self (item i) state m.state_of,
              )
          | inr n ↦ rw n (earlier j (p.mine j (ground (arith, n))))
        ];
        idle = λ j le jlt.
            write_other i (item i) j m.head (λ e. omega arith) ∙ p.idle j (omega arith) jlt;
        counted =
            write_self state _ m.unfinished_cores
            ∙ next_count (m.unfinished_cores state) (pend m.head i) p.counted (omega (arith, most))
            ∙ sym (pend-sent m.head i (item i) (λ e. omega arith));
        once = λ j jlt. elim (Bool-cases (i == j)) [
          | inl y ↦
              let q : i ≡ j = eq_of_== i j y in
              rw (y, ==-false (item i) 0 (λ e. omega arith))
                (omega (arith, p.none_yet j (omega (arith, q))))
          | inr n ↦ rw n (p.once j (ground (arith, n)))
        ];
        none_yet = λ j le. p.none_yet j (omega arith);
      })
    where
      earlier :
          (j : ℕ)
          → (m.head j ≡ 0) ⊎ ((m.head j ≡ item j) × (m.state_of (item j) ≡ state))
          → (m.head j ≡ 0)
            ⊎ ((m.head j ≡ item j) × (write (item i) state m.state_of (item j) ≡ state))
      earlier j (inl q) = inl q
      earlier j (inr q) =
          inr (q.0, elim (Bool-cases (item i == item j)) [ inl y ↦ rw y refl | inr n ↦ rw n (q.1) ])

  send_all-IsPending :
      (i k : ℕ) (m : Machine)
      → core_count < 2 ^ 64
      → i + k ≡ core_count
      → IsPending i m
      → IsPending core_count (send_all core_count self state i k m)
  unfolding send_all
  send_all-IsPending i zero m small q p = subst (λ n. IsPending n m) (omega (arith, q)) p
  send_all-IsPending i (suc k) m small q p =
      send_all-IsPending (suc i) k _ small (omega (arith, q))
        (send-IsPending i m small (omega arith) p)

  -- The function has been run, and how often.
  pub record IsExecuted (n : Machine) : Type 0 where
    pub finished : n.unfinished_cores state ≡ 0
    pub once : (j : ℕ) → j < core_count → runs_of j state n.ran ≡ suc (runs_of j state before.ran)

  -- A call for all cores that starts while all queues are empty and no item is linked, and whose items
  -- are all sent before a core drains its queue: whatever the order in which the cores do so then, as
  -- soon as each has the count is 0, on which the call returns, and each core has run the function once
  -- more than before. Each drain ends within two rounds.
  pub execute_all-IsExecuted :
      (order : List ℕ)
      → core_count < 2 ^ 64
      → IsQuiet core_count before
      → All (λ j. j < core_count) order
      → ((j : ℕ) → j < core_count → IsIn j order)
      → Yields IsExecuted (drain_all 2 order (execute_all core_count self state before))
  unfolding execute_all
  execute_all-IsExecuted order small quiet lts covered =
      let start : IsPending 0
          (record before { unfinished_cores = write state 0 before.unfinished_cores }) =
        record {
          unlinked = quiet.unlinked;
          mine = λ j lt. absurd (omega arith);
          idle = λ j le lt. quiet.empty j lt;
          counted = write_self state 0 before.unfinished_cores;
          once = λ j lt. absurd (omega arith);
          none_yet = λ j le. refl;
        } in
      let sent = send_all-IsPending 0 core_count _ small (omega arith) start in
      Yields-imp (IsAfter order (send_all core_count self state 0 core_count _)) IsExecuted
        (drain_all 2 order _)
        (λ n a.
          let zero_heads : (j : ℕ) → j < core_count → n.head j ≡ 0 =
            λ j lt. a.drained j (inr (covered j lt)) in
          record {
            finished = a.pending.counted ∙ pend-zero n.head core_count zero_heads;
            once = λ j lt.
                let idle : n.head j == 0 ≡ true = ==-refl (n.head j) 0 (zero_heads j lt) in
                let all : runs_of j state n.ran + 0 ≡ suc (runs_of j state before.ran) =
                  ap (λ b. runs_of j state n.ran + bit (not b)) (sym idle) ∙ a.pending.once j lt in
                omega (arith, all);
          })
        (drain_all-IsAfter 0 order _ small lts sent)
