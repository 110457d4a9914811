-- ===== src/Util/Mp/Tests.antt =====
-- Runs of kernel/util/mp.cpp.
use reaveros.Prelude.{ℕ, zero, suc, ◌<◌, ◌≡◌, refl, List, [], ◌∷◌, ◌++◌, arith, inl, inr}
use reaveros.Prelude.Outcome.{done, Yields, ◌>>=◌}
use reaveros.Util.Mp.{Machine, push, drain, execute_all, execute_specific, drain_all}
use reaveros.Util.Mp.Counts.{IsIn}
use reaveros.Util.Mp.Stale.{runs, drain-push_stale}
use reaveros.Util.Mp.Rounds.{IsExecuted, execute_all-IsExecuted}

abbrev quiet : Machine
quiet = record {
  next = λ x. 0;
  state_of = λ x. x;
  head = λ j. 0;
  tail = λ j. 0;
  unfinished_cores = λ s. 0;
  ran = [];
}

drain-push_stale_example :
    Yields
      (λ n.
        Yields (λ o. o.ran ≡ [] ++ runs 1 (λ x. x) (5 ∷ 7 ∷ 5 ∷ 7 ∷ [])) (drain 3 1 (push 1 5 n)))
      (drain 3 1 (push 1 7 (push 1 5 quiet)))
drain-push_stale_example =
    drain-push_stale 1 5 7 quiet (λ e. omega arith) (λ e. omega arith) (λ e. omega arith) refl refl

-- Three cores: the caller, 1, comes last, and 2 drains twice.
abbrev order : List ℕ
order = 2 ∷ 0 ∷ 2 ∷ 1 ∷ []

all_listed : (j : ℕ) → j < 3 → IsIn j order
all_listed zero lt = inr (inl refl)
all_listed (suc zero) lt = inr (inr (inr (inl refl)))
all_listed (suc (suc zero)) lt = inl refl
all_listed (suc (suc (suc j))) lt = absurd (omega arith)

execute_all-IsExecuted_example :
    Yields (IsExecuted 3 1 9 quiet) (drain_all 2 order (execute_all 3 1 9 quiet))
execute_all-IsExecuted_example =
    execute_all-IsExecuted 3 1 9 quiet order (omega arith)
      (record { empty = λ j lt. refl; unlinked = λ x. refl })
      (omega arith, (omega arith, (omega arith, (omega arith, tt)))) all_listed

-- A call for one core leaves the others alone.
specific_sample :
    (drain_all 2 (0 ∷ 2 ∷ []) (execute_specific 3 1 2 9 quiet) >>= λ m. done m.ran)
    ≡ done (record { core = 2; state = 9 } ∷ [])
unfolding drain_all execute_specific reaveros.Util.Mp.drain reaveros.Util.Mp.push
specific_sample = refl
