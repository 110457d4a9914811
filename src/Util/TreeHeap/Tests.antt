-- ===== src/Util/TreeHeap/Tests.antt =====
-- Runs of kernel/util/tree_heap.h.
use reaveros.Prelude.{
  ℕ, zero, suc, ◌≤◌, ◌≡◌, refl, true, false, none, Returns, ◌==◌, ◌⊎◌, arith, if◌then◌else◌,
}
use reaveros.Util.TreeHeap.{TreeHeap, get_nth, push_unlinked, push, pop}
use reaveros.Util.TreeHeap.Find.{get_nth_lem}
use reaveros.Util.TreeHeap.Bits.{bit_length, leading_zeroes, leading_zeroes-CountsZeroes}
use reaveros.Util.TreeHeap.Order.{IsHeap}
use reaveros.Util.TreeHeap.Laws.{IsPushed, IsPopped, push-IsPushed, pop-IsPopped}

get_nth_lem_run : get_nth leading_zeroes 11 ≡ 11
get_nth_lem_run =
    get_nth_lem leading_zeroes 11 leading_zeroes-CountsZeroes (omega arith) (omega arith)

-- A tree of four numbers.
abbrev numbers : TreeHeap ℕ
numbers = record {
  at = λ k. if k == 1 then 2 else (if k == 2 then 5 else (if k == 3 then 4 else 9));
  size = 4;
}

abbrev number : ℕ → ℕ
number a = a

numbers-IsHeap : IsHeap number 4 (numbers.at)
numbers-IsHeap zero a b = absurd (omega arith)
numbers-IsHeap (suc zero) a b = absurd (omega arith)
numbers-IsHeap (suc (suc zero)) a b = omega arith
numbers-IsHeap (suc (suc (suc zero))) a b = omega arith
numbers-IsHeap (suc (suc (suc (suc zero)))) a b = omega arith
numbers-IsHeap (suc (suc (suc (suc (suc k))))) a b = absurd (omega arith)

push-IsPushed_example :
    (((numbers.size ≡ 0) × (true ≡ true)) × (push number leading_zeroes true 3 numbers ≡ none))
    ⊎ ((numbers.size ≡ 0 → true ≡ false)
        × Returns
            (IsPushed number leading_zeroes 3 numbers)
            (push number leading_zeroes true 3 numbers))
push-IsPushed_example =
    push-IsPushed number leading_zeroes true 3 numbers leading_zeroes-CountsZeroes numbers-IsHeap
      (omega arith)

pop-IsPopped_example :
    ((numbers.size ≡ 0) × (pop number leading_zeroes numbers ≡ none))
    ⊎ ((1 ≤ numbers.size)
        × Returns (IsPopped number leading_zeroes numbers) (pop number leading_zeroes numbers))
pop-IsPopped_example =
    pop-IsPopped number leading_zeroes numbers leading_zeroes-CountsZeroes numbers-IsHeap
      (omega arith)

-- A new element rises to the top, past the one above it.
push_run : (push_unlinked number leading_zeroes 1 numbers).at 2 ≡ 2
unfolding push_unlinked bit_length
push_run = refl
