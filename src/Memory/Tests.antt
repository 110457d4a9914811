-- ===== src/Memory/Tests.antt =====
-- Runs of kernel/memory/pmm.cpp.
use reaveros.Prelude.{
  ℕ, ◌≡◌, refl, false, some, List, [], ◌∷◌, arith, All, Returns, ◌==◌, if◌then◌else◌,
}
use reaveros.Prelude.Outcome.{panic, spin, Yields}
use reaveros.Memory.Pmm.{StackInfo, State, push, pop}
use reaveros.Memory.Pmm.Laws.{IsSame, pop_empty_spins, pop-push}
use reaveros.Memory.Pmm.Initialize.{MemoryMapEntry, Frame, carve, initialize, memory_free}
use reaveros.Memory.Pmm.Initialize.Tiling.{IsCarved, carve-IsCarved}
use reaveros.Memory.Pmm.Initialize.Regions.{IsFree, initialize-AllFree}

-- There is one large page, and nothing else.
abbrev stacks : ℕ → StackInfo
stacks j =
    if j == 1
    then (record { locked = false; stack = 2097152 ∷ []; num_frames = 1 })
    else (record { locked = false; stack = []; num_frames = 0 })

abbrev one_large_page : State
one_large_page = record { infos = stacks; free_frames = λ j. 0; used_frames = λ j. 0 }

pop_empty_spins_example : pop 0 one_large_page ≡ spin
pop_empty_spins_example =
    pop_empty_spins 0 2097152 [] one_large_page (omega arith) refl refl refl (λ e. omega arith) refl

pop-push_example :
    Yields
      (λ t. Yields (λ r. (r.0 ≡ 4096) × IsSame one_large_page r.1) (pop 0 t))
      (push 0 4096 one_large_page)
pop-push_example =
    pop-push 0 4096 one_large_page (omega arith) refl (omega arith, omega arith, omega arith)

-- No frames are left in the largest size: an error, and not a deadlock.
pop_exhausted_run : pop 2 one_large_page ≡ panic
unfolding pop
pop_exhausted_run = refl

-- Two pages before a large page, and one behind it.
carve-IsCarved_laid : Returns (IsCarved 2088960 2109440) (carve 3000000 2088960 2109440)
carve-IsCarved_laid = carve-IsCarved 3000000 2088960 2109440 (omega arith) refl (omega arith)

abbrev frame : ℕ → ℕ → Frame
frame i a = record { layer = i; address = a }

carve_run :
    carve 9 2088960 2110464
    ≡ some (record {
      start = 4198400;
      remaining = 1024;
      frames = frame 0 2088960 ∷ frame 0 2093056 ∷ frame 1 2097152 ∷ frame 0 4194304 ∷ [];
    })
unfolding carve
carve_run = refl

-- Two free entries that are merged, and one of the kernel's.
abbrev memory_map : List MemoryMapEntry
memory_map =
    record { physical_start = 2097152; length = 4096; type = memory_free; attributes = 0 }
    ∷ record { physical_start = 2101248; length = 4096; type = memory_free; attributes = 0 }
    ∷ record { physical_start = 2105344; length = 8192; type = 6; attributes = 0 }
    ∷ []

initialize-AllFree_example :
    Returns (λ s. All (IsFree memory_map) s.frames) (initialize 20000 memory_map)
initialize-AllFree_example =
    initialize-AllFree 20000 memory_map (omega arith) (refl, (refl, (refl, tt)))
      (omega arith, (omega arith, (omega arith, tt)))
