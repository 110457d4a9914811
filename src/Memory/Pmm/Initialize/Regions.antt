-- ===== src/Memory/Pmm/Initialize/Regions.antt =====
-- `initialize` of kernel/memory/pmm.cpp gives out free memory only.
use reaveros.Prelude.{
  ℕ, ◌+◌, ◌-◌, ◌%◌, ◌^◌, ◌≤◌, ◌<◌, ◌≡◌, refl, subst, ◌⊎◌, Bool-cases, true, List, [], ◌∷◌, ◌==◌,
  eq_of_==, ltb, leb, ◌&&◌, arith, inl, inr, All, All-append, Never, Returns, Returns-bind,
}
use reaveros.Memory.Pmm.{page_sizes}
use reaveros.Memory.Pmm.Initialize.{
  MemoryMapEntry, Frame, Initialized, memory_free, mebibyte, is_used_type, carve, release, finish,
  continues, walk, initialize,
}
use reaveros.Memory.Pmm.Initialize.Tiling.{Tiles, Tiles-le, IsCarved, carve-IsCarved}

-- The address lies in an entry of the type.
abbrev pub IsOfType : ℕ → List MemoryMapEntry → ℕ → Type 0
IsOfType type [] x = Never
IsOfType type (e ∷ es) x =
    ((e.type ≡ type) × (e.physical_start ≤ x) × (x < e.physical_start + e.length))
    ⊎ IsOfType type es x

-- All of the range lies in entries of the type.
abbrev pub IsCovered : List MemoryMapEntry → ℕ → ℕ → ℕ → Type 0
IsCovered es type lo hi = (x : ℕ) → lo ≤ x → x < hi → IsOfType type es x

-- All of the frame lies in free entries.
abbrev pub IsFree : List MemoryMapEntry → Frame → Type 0
IsFree es f = IsCovered es memory_free f.address (f.address + page_sizes f.layer)

-- The entries of a part of the memory map stand in all of it.
abbrev AreIn : List MemoryMapEntry → List MemoryMapEntry → Type 0
AreIn all es = All (λ e. IsCovered all e.type e.physical_start (e.physical_start + e.length)) es

abbrev AreAligned : List MemoryMapEntry → Type 0
AreAligned es = All (λ e. e.physical_start % 4096 ≡ 0) es

abbrev pub total : List MemoryMapEntry → ℕ
total [] = 0
total (e ∷ es) = e.length + total es

Tiles-IsFree :
    (all : List MemoryMapEntry) (a : ℕ) (fs : List Frame) (b : ℕ)
    → Tiles a fs b
    → IsCovered all memory_free a b
    → All (IsFree all) fs
Tiles-IsFree all a [] b t c = tt
Tiles-IsFree all a (f ∷ fs) b t c =
    let le = Tiles-le (a + page_sizes f.layer) fs b t.3 in
    (
      λ x lo hi. c x (omega (arith, t.0)) (omega (arith, t.0)),
      Tiles-IsFree all (a + page_sizes f.layer) fs b t.3 (λ x lo hi. c x (omega arith) hi),
    )

abbrev AllFree : List MemoryMapEntry → Initialized → Type 0
AllFree all s = All (IsFree all) s.frames

release-AllFree :
    (all : List MemoryMapEntry) (fuel start size : ℕ) (e : MemoryMapEntry) (s : Initialized)
    → size < fuel
    → start % 4096 ≡ 0
    → start + size < 2 ^ 64
    → IsCovered all e.type start (start + size)
    → AllFree all s
    → Returns (AllFree all) (release fuel start size e s)
unfolding release
release-AllFree all fuel start size e s lt z top c h = elim (Bool-cases (e.type == memory_free)) [
  | inl q ↦ rw q (
      Returns-bind (IsCarved start size) _ (carve fuel start size) _
        (carve-IsCarved fuel start size lt z top)
        λ r k. All-append _ s.frames r.frames h (
          Tiles-IsFree all start r.frames r.start k.0 λ x lo hi.
            subst (λ t. IsOfType t all x) (eq_of_== e.type memory_free q)
              (c x lo (omega (arith, k.1)))))
  | inr q ↦ rw q (elim (Bool-cases (is_used_type e.type)) [ inl u ↦ rw u h | inr u ↦ rw u h ])
]

finish-AllFree :
    (all : List MemoryMapEntry) (fuel start size : ℕ) (e : MemoryMapEntry) (s : Initialized)
    → size < fuel
    → start % 4096 ≡ 0
    → start + size < 2 ^ 64
    → IsCovered all e.type start (start + size)
    → AllFree all s
    → Returns (AllFree all) (finish fuel start size e s)
unfolding finish
finish-AllFree all fuel start size e s lt z top c h =
    elim (Bool-cases (ltb start mebibyte && s.sub_1M_top == 0)) [
      | inl q ↦ rw q (elim (Bool-cases (leb size mebibyte)) [
        | inl u ↦ rw u h
        | inr u ↦ rw u (
            release-AllFree all fuel mebibyte (size - mebibyte) e
              (record s { sub_1M_bottom = start; sub_1M_top = mebibyte }) (omega arith)
              (omega arith) (ground (arith, u, q, top))
              (λ x lo hi. c x (ground arith) (ground arith)) h)
      ])
      | inr q ↦ rw q (release-AllFree all fuel start size e s lt z top c h)
    ]

IsCovered-append :
    (all : List MemoryMapEntry) (type lo mid hi : ℕ)
    → IsCovered all type lo mid
    → IsCovered all type mid hi
    → IsCovered all type lo hi
IsCovered-append all type lo mid hi c d x le lt = elim (Bool-cases (ltb x mid)) [
  | inl q ↦ c x le (ground arith)
  | inr q ↦ d x (ground arith) lt
]

abbrev Fits : List MemoryMapEntry → Type 0
Fits es = All (λ e. e.physical_start + e.length < 2 ^ 64) es

-- What a merge finds out of the next entry.
continues-lem :
    (start size : ℕ) (e f : MemoryMapEntry)
    → start + size < 2 ^ 64
    → continues start size e f ≡ true
    → (e.type ≡ f.type) × (start + size ≡ f.physical_start)
continues-lem start size e f top h = ground arith

walk-AllFree :
    (all : List MemoryMapEntry) (fuel start size : ℕ) (e : MemoryMapEntry)
    (rest : List MemoryMapEntry) (s : Initialized)
    → size + total rest < fuel
    → start % 4096 ≡ 0
    → start + size < 2 ^ 64
    → AreAligned rest
    → Fits rest
    → AreIn all rest
    → IsCovered all e.type start (start + size)
    → AllFree all s
    → Returns (AllFree all) (walk fuel start size e rest s)
unfolding walk
walk-AllFree all fuel start size e [] s lt z top al fit i c h =
    finish-AllFree all fuel start size e s (omega arith) z top c h
walk-AllFree all fuel start size e (f ∷ rest) s lt z top al fit i c h =
    elim (Bool-cases (continues start size e f)) [
      | inl q ↦
          let (same, next) = continues-lem start size e f top q in
          let sum : size + f.length ≡ (size + f.length) % 2 ^ 64 = omega (arith, next, fit.0) in
          let joined : (n : ℕ)
              → size + f.length ≡ n
              → Returns (AllFree all) (walk fuel start n f rest s) =
            λ n e.
              walk-AllFree all fuel start n f rest s (omega (arith, e, lt)) z
                (omega (arith, e, next, fit.0)) al.1 fit.1 i.1
                (subst (λ n. IsCovered all f.type start (start + n)) e (merged same next)) h in
          rw (q, walk) (joined ((size + f.length) % 2 ^ 64) sum)
      | inr q ↦
          rw (q, walk)
            (Returns-bind _ _ (finish fuel start size e s) _
              (finish-AllFree all fuel start size e s (omega arith) z top c h)
              λ t k.
                walk-AllFree all fuel f.physical_start f.length f rest t (omega arith) al.0 fit.0
                  al.1 fit.1 i.1 i.0 k)
    ]
  where
    merged :
        e.type ≡ f.type
        → start + size ≡ f.physical_start
        → IsCovered all f.type start (start + (size + f.length))
    merged same next =
        IsCovered-append all f.type start (start + size) (start + (size + f.length))
          (λ x lo hi. subst (λ t. IsOfType t all x) same (c x lo hi))
          (λ x lo hi. i.0 x (omega arith) (omega arith))

AreIn-self :
    (all es : List MemoryMapEntry) → ((t x : ℕ) → IsOfType t es x → IsOfType t all x) → AreIn all es
AreIn-self all [] up = tt
AreIn-self all (e ∷ es) up =
    (λ x lo hi. up e.type x (inl (refl, lo, hi)), AreIn-self all es (λ t x h. up t x (inr h)))

-- If every entry of the memory map starts at a multiple of 4096 and ends below 2^64, every byte of every frame that
-- `initialize` gives out lies in an entry of free memory; it ends, given more rounds for each region
-- than the map has bytes.
pub initialize-AllFree :
    (fuel : ℕ) (es : List MemoryMapEntry)
    → total es < fuel
    → All (λ e. e.physical_start % 4096 ≡ 0) es
    → All (λ e. e.physical_start + e.length < 2 ^ 64) es
    → Returns (λ s. All (IsFree es) s.frames) (initialize fuel es)
unfolding initialize
initialize-AllFree fuel [] lt al fit = tt
initialize-AllFree fuel (e ∷ es) lt al fit =
    let (here, there) = AreIn-self (e ∷ es) (e ∷ es) (λ t x h. h) in
    walk-AllFree (e ∷ es) fuel e.physical_start e.length e es
      (record { frames = []; used = 0; sub_1M_bottom = 0; sub_1M_top = 0 }) lt al.0 fit.0 al.1 fit.1
      there here tt
