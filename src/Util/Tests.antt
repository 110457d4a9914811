-- ===== src/Util/Tests.antt =====
-- Runs of the queue of kernel/util/fifo.h.
use reaveros.Prelude.{◌≡◌, refl, none, some, List, [], ◌∷◌, arith}
use reaveros.Util.Fifo.{State, create, push_back, pop_front, empty}
use reaveros.Util.Fifo.Refine.{Holds, Op, push, pop, run, run_list, run_refines}

-- Old links are no matter.
abbrev start : State
start = record { next = λ a. 7; fifo = create }

start-Holds : Holds start []
unfolding create
start-Holds = record { chain = refl; tail = tt; distinct = tt; counted = refl }

abbrev calls : List Op
calls = push 3 ∷ push 5 ∷ pop ∷ push 3 ∷ pop ∷ pop ∷ pop ∷ []

run_refines_example : run calls start ≡ run_list calls []
run_refines_example = run_refines calls start [] start-Holds (
  (λ e. omega arith),
  tt,
  (
    (λ e. omega arith),
    ((λ e. omega arith), tt),
    ((λ e. omega arith), ((λ e. omega arith), tt), tt),
  ),
)

sample_results : run calls start ≡ some 3 ∷ some 5 ∷ some 3 ∷ none ∷ []
unfolding run push_back pop_front empty create
sample_results = refl
