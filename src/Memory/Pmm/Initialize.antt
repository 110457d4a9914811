-- ===== src/Memory/Pmm/Initialize.antt =====
-- `initialize` of kernel/memory/pmm.cpp: the free regions of the memory map are cut into frames.
-- Addresses and sizes wrap at 2^64. Output is left out. The frames are listed in the order in which they are pushed; a `while` loop
-- has `fuel` rounds.
pub mod Tiling
pub mod Regions
use reaveros.Prelude.{
  ℕ, zero, suc, ◌+◌, ◌-◌, ◌/◌, ◌%◌, ◌^◌, Bool, true, false, Option, none, some, List, [], ◌∷◌, ◌++◌,
  ◌==◌, ltb, leb, ◌&&◌, ◌||◌, not, if◌then◌else◌, ◌>>=◌,
}
use reaveros.Memory.Pmm.{page_size_count, page_sizes, State, inc}

-- `memory_type` of libraries/boot-protocol/include/boot-memmap.h, by the number of its enumerators.
abbrev pub memory_free : ℕ
memory_free = 1

-- loader, kernel, initrd, paging, memory_map, backbuffer, log_buffer and working_stack.
abbrev pub is_used_type : ℕ → Bool
is_used_type t = (t == 2) || (leb 6 t && leb t 12)

-- `memory_map_entry`.
pub record MemoryMapEntry : Type 0 where
  pub physical_start : ℕ
  pub length : ℕ
  pub type : ℕ
  pub attributes : ℕ

-- A frame that has been pushed.
pub record Frame : Type 0 where
  pub layer : ℕ
  pub address : ℕ

-- `start` and `remaining`, and the frames that have been pushed.
pub record Region : Type 0 where
  pub start : ℕ
  pub remaining : ℕ
  pub frames : List Frame

-- The lambda `push`.
unfoldable pub push_frame : ℕ → Region → Region
push_frame i r = record {
  start = (r.start + page_sizes i) % 2 ^ 64;
  remaining = r.remaining - page_sizes i;
  frames = r.frames ++ (record { layer = i; address = r.start } ∷ []);
}

-- while (start % page_sizes[i + 1] && remaining >= page_sizes[i]) push(i)
unfoldable pub align_loop : ℕ → ℕ → Region → Option Region
unfolding push_frame
align_loop zero i r = none
align_loop (suc fuel) i r =
    elim (not (r.start % page_sizes (suc i) == 0) && leb (page_sizes i) r.remaining) [
      | true ↦ align_loop fuel i (push_frame i r)
      | false ↦ some r
    ]

-- while (remaining >= page_sizes[i]) push(i)
unfoldable pub fill_loop : ℕ → ℕ → Region → Option Region
unfolding push_frame
fill_loop zero i r = none
fill_loop (suc fuel) i r = elim (leb (page_sizes i) r.remaining) [
  | true ↦ fill_loop fuel i (push_frame i r)
  | false ↦ some r
]

-- The two `for` loops, over the three sizes of frames.
unfoldable pub carve : ℕ → ℕ → ℕ → Option Region
unfolding align_loop fill_loop
carve fuel start size =
    align_loop fuel 0 (record { start = start; remaining = size; frames = [] }) >>= λ r0.
    align_loop fuel 1 r0 >>= λ r1.
    fill_loop fuel 2 r1 >>= λ r2. fill_loop fuel 1 r2 >>= λ r3. fill_loop fuel 0 r3

-- What `initialize` has set up: the frames that it has pushed, each of which `free_frames` counts,
-- the frames that it counts as used, and the region below one mebibyte that it keeps apart.
pub record Initialized : Type 0 where
  pub frames : List Frame
  pub used : ℕ
  pub sub_1M_bottom : ℕ
  pub sub_1M_top : ℕ

abbrev pub mebibyte : ℕ
mebibyte = 1048576

-- A region by its type; `e` is the last entry that was merged into it.
unfoldable pub release : ℕ → ℕ → ℕ → MemoryMapEntry → Initialized → Option Initialized
unfolding carve
release fuel start size e s =
    if e.type == memory_free
    then (carve fuel start size >>= λ r. some (record s { frames = s.frames ++ r.frames }))
    else some (
        if is_used_type e.type
        then (record s { used = (s.used + e.length / page_sizes 0) % 2 ^ 64 })
        else s)

-- The part of the loop's body behind the merge.
unfoldable pub finish : ℕ → ℕ → ℕ → MemoryMapEntry → Initialized → Option Initialized
unfolding release
finish fuel start size e s =
    if ltb start mebibyte && s.sub_1M_top == 0
    then (if leb size mebibyte
        then some (record s { sub_1M_bottom = start; sub_1M_top = size })
        else release fuel mebibyte (size - mebibyte) e
            (record s { sub_1M_bottom = start; sub_1M_top = mebibyte }))
    else release fuel start size e s

-- The entry continues the region.
abbrev pub continues : ℕ → ℕ → MemoryMapEntry → MemoryMapEntry → Bool
continues start size e f =
    e.type == f.type
    && (e.attributes == f.attributes && (start + size) % 2 ^ 64 == f.physical_start)

-- The loop over the entries: the region that is being merged, its last entry, and those to come.
unfoldable pub walk :
    ℕ → ℕ → ℕ → MemoryMapEntry → List MemoryMapEntry → Initialized → Option Initialized
unfolding finish
walk fuel start size e [] s = finish fuel start size e s
walk fuel start size e (f ∷ rest) s = elim (continues start size e f) [
  | true ↦ walk fuel start ((size + f.length) % 2 ^ 64) f rest s
  | false ↦ finish fuel start size e s >>= λ t. walk fuel f.physical_start f.length f rest t
]

unfoldable pub initialize : ℕ → List MemoryMapEntry → Option Initialized
initialize fuel [] = some (record { frames = []; used = 0; sub_1M_bottom = 0; sub_1M_top = 0 })
initialize fuel (e ∷ rest) =
    walk fuel e.physical_start e.length e rest
      (record { frames = []; used = 0; sub_1M_bottom = 0; sub_1M_top = 0 })
