-- ===== src/Memory/Pmm.antt =====
-- kernel/memory/pmm.h and pmm.cpp: the free frames of each size stand in a stack, which is linked
-- through the frames themselves. A `std::mutex` is a flag on which the second `lock` loops: where
-- the one that holds it is the one that waits, the loop never ends, which is the outcome `spin`.
pub mod Layer
pub mod Laws
pub mod Initialize
use reaveros.Prelude.{
  ℕ, zero, suc, ◌+◌, ◌-◌, ◌*◌, ◌/◌, ◌%◌, ◌^◌, Bool, true, false, List, [], ◌∷◌, ◌==◌, leb,
  if◌then◌else◌,
}
use reaveros.Prelude.Outcome.{Outcome, done, panic, fault, spin, ◌>>=◌}

-- `page_size_count` and `page_sizes` of kernel/arch/amd64/memory/vm.h.
abbrev pub page_size_count : ℕ
page_size_count = 3

abbrev pub page_sizes : ℕ → ℕ
page_sizes zero = 4096
page_sizes (suc zero) = 2097152
page_sizes (suc (suc i)) = 1073741824

-- `_stack_info`; the stack holds the addresses of the frames, the top first.
pub record StackInfo : Type 0 where
  pub locked : Bool
  pub stack : List ℕ
  pub num_frames : ℕ

-- `global_manager` with the two counts.
pub record State : Type 0 where
  pub infos : ℕ → StackInfo
  pub free_frames : ℕ → ℕ
  pub used_frames : ℕ → ℕ

abbrev pub inc : ℕ → ℕ
inc n = (n + 1) % 2 ^ 64

abbrev pub dec : ℕ → ℕ
dec n = (n + (2 ^ 64 - 1)) % 2 ^ 64

-- A write to an array.
abbrev pub set {ℓ} : {A : Type ℓ} → ℕ → A → (ℕ → A) → ℕ → A
set i v f j = if i == j then v else f j

abbrev pub set_info : ℕ → StackInfo → State → State
set_info i v s = record s { infos = set i v s.infos }

unfoldable pub lock : ℕ → State → Outcome State
lock layer s = elim (s.infos layer).locked [
  | true ↦ spin
  | false ↦ done (set_info layer (record (s.infos layer) { locked = true }) s)
]

unfoldable pub unlock : ℕ → State → State
unlock layer s = set_info layer (record (s.infos layer) { locked = false }) s

-- The frame's header becomes the top of the stack.
abbrev pub stacked : ℕ → StackInfo → StackInfo
stacked frame i = record i { stack = frame ∷ i.stack; num_frames = inc i.num_frames }

-- `instance::push`.
unfoldable pub instance_push : ℕ → ℕ → State → Outcome State
unfolding lock unlock
instance_push layer frame s =
    lock layer s >>= λ t. done (unlock layer (set_info layer (stacked frame (t.infos layer)) t))

-- `pmm::push`.
unfoldable pub push : ℕ → ℕ → State → Outcome State
unfolding instance_push
push layer frame s =
    if leb page_size_count layer
    then panic
    else instance_push layer frame s >>= λ t. done (record t {
      used_frames = set layer (dec (t.used_frames layer)) t.used_frames;
      free_frames = set layer (inc (t.free_frames layer)) t.free_frames;
    })

-- The loop that hands the parts of a larger frame, from the `i`-th on, to `pmm::push`.
unfoldable pub split : ℕ → ℕ → ℕ → ℕ → State → Outcome State
unfolding push
split layer frame i zero s = done s
split layer frame i (suc n) s =
    push layer (frame + i * page_sizes layer) s >>= λ t. split layer frame (suc i) n t

-- The end of `instance::pop`: the top is taken off.
unfoldable pub take_top : ℕ → State → Outcome (ℕ × State)
unfolding unlock
take_top layer s = elim (s.infos layer).stack [
  | [] ↦ fault
  | frame ∷ rest ↦ done (
    frame,
    unlock layer (
        set_info layer
          (record (s.infos layer) { stack = rest; num_frames = dec (s.infos layer).num_frames }) s),
  )
]

-- `instance::pop` of the layer that has `higher` layers above it.
unfoldable pub instance_pop : ℕ → ℕ → State → Outcome (ℕ × State)
unfolding lock split take_top
instance_pop zero layer s =
    lock layer s >>= λ t. (if (t.infos layer).num_frames == 0 then panic else take_top layer t)
instance_pop (suc higher) layer s = lock layer s >>= λ t. elim ((t.infos layer).num_frames == 0) [
  | true ↦ instance_pop higher (suc layer) t >>= λ (frame, u).
      split layer frame 0 (page_sizes (suc layer) / page_sizes layer) u >>= λ v. take_top layer v
  | false ↦ take_top layer t
]

-- `pmm::pop`.
unfoldable pub pop : ℕ → State → Outcome (ℕ × State)
unfolding instance_pop
pop layer s =
    if leb page_size_count layer
    then panic
    else instance_pop (2 - layer) layer s >>= λ (frame, t). done (
      frame,
      record t {
        free_frames = set layer (dec (t.free_frames layer)) t.free_frames;
        used_frames = set layer (inc (t.used_frames layer)) t.used_frames;
      },
    )
