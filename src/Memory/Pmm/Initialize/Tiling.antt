-- ===== src/Memory/Pmm/Initialize/Tiling.antt =====
-- The frames that `initialize` of kernel/memory/pmm.cpp cuts a region into.
use reaveros.Prelude.{
  ℕ, zero, suc, ◌+◌, ◌%◌, ◌^◌, ◌≤◌, ◌<◌, ◌≡◌, refl, sym, ap, subst, Bool-cases, true, false, List,
  [], ◌∷◌, ◌++◌, ◌==◌, leb, ◌&&◌, not, arith, inl, inr, Returns, Returns-bind, Returns-imp,
}
use reaveros.Memory.Pmm.{page_sizes}
use reaveros.Memory.Pmm.Initialize.{Frame, Region, push_frame, align_loop, fill_loop, carve}

-- The frames stand one behind the other from `a` to `b`, and each is aligned to its size.
abbrev pub Tiles : ℕ → List Frame → ℕ → Type 0
Tiles a [] b = a ≡ b
Tiles a (f ∷ fs) b =
    (f.address ≡ a)
    × (f.layer < 3)
    × (f.address % page_sizes f.layer ≡ 0)
    × Tiles (a + page_sizes f.layer) fs b

Tiles-append :
    (a b : ℕ) (fs : List Frame) (i : ℕ)
    → Tiles a fs b
    → i < 3
    → b % page_sizes i ≡ 0
    → Tiles a (fs ++ (record { layer = i; address = b } ∷ [])) (b + page_sizes i)
Tiles-append a b [] i t lt z = (sym t, lt, z, ap (λ n. n + page_sizes i) t)
Tiles-append a b (f ∷ fs) i t lt z =
    (t.0, t.1, t.2, Tiles-append (a + page_sizes f.layer) b fs i t.3 lt z)

-- A region that is being cut: the frames up to its start, and what remains up to `end`.
record IsCut (origin end : ℕ) (r : Region) : Type 0 where
  tiles : Tiles origin r.frames r.start
  rest : r.start + r.remaining ≡ end

push_frame-IsCut :
    (origin end i : ℕ) (r : Region)
    → i < 3
    → IsCut origin end r
    → r.start % page_sizes i ≡ 0
    → page_sizes i ≤ r.remaining
    → end < 2 ^ 64
    → IsCut origin end (push_frame i r)
unfolding push_frame
push_frame-IsCut origin end i r lt c z le top =
    let e : r.start + page_sizes i ≡ (r.start + page_sizes i) % 2 ^ 64 =
      omega (arith, c.rest, le, top) in
    record {
      tiles =
          subst (Tiles origin (r.frames ++ (record { layer = i; address = r.start } ∷ []))) e
            (Tiles-append origin r.start r.frames i c.tiles lt z);
      rest = omega (arith, c.rest, le, top);
    }

page_sizes_pos : (i : ℕ) → 0 < page_sizes i
page_sizes_pos zero = omega arith
page_sizes_pos (suc zero) = omega arith
page_sizes_pos (suc (suc i)) = omega arith

page_sizes-le : (i n : ℕ) → leb (page_sizes i) n ≡ true → page_sizes i ≤ n
page_sizes-le i n e = ground arith

page_sizes-lt : (i n : ℕ) → leb (page_sizes i) n ≡ false → n < page_sizes i
page_sizes-lt i n e = ground arith

aligned_or_small :
    (a n : ℕ) (i : ℕ)
    → (not (a % page_sizes (suc i) == 0) && leb (page_sizes i) n) ≡ false
    → page_sizes i ≤ n
    → a % page_sizes (suc i) ≡ 0
aligned_or_small a n i e le = ground arith

-- A loop over one size, with what it keeps of the region: an alignment that allows the next frame.
module _ (origin end i : ℕ) (K : Region → Type 0) (small : i < 3) (top : end < 2 ^ 64)
    (keep : (r : Region) → K r → page_sizes i ≤ r.remaining → K (push_frame i r))
    (allows : (r : Region) → K r → page_sizes i ≤ r.remaining → r.start % page_sizes i ≡ 0) where
  pushed :
      (r : Region)
      → IsCut origin end r
      → K r
      → page_sizes i ≤ r.remaining
      → IsCut origin end (push_frame i r)
  pushed r c k le = push_frame-IsCut origin end i r small c (allows r k le) le top

  fewer :
      (r : Region) (fuel : ℕ)
      → r.remaining < suc fuel
      → page_sizes i ≤ r.remaining
      → (push_frame i r).remaining < fuel
  unfolding push_frame
  fewer r fuel lt le = omega (arith, page_sizes_pos i)

  align_loop-IsCut :
      (fuel : ℕ) (r : Region)
      → r.remaining < fuel
      → IsCut origin end r
      → K r
      → Returns
          (λ q.
            IsCut origin end q
            × K q
            × (page_sizes i ≤ q.remaining → q.start % page_sizes (suc i) ≡ 0))
          (align_loop fuel i r)
  unfolding align_loop
  align_loop-IsCut zero r lt c k = absurd (omega arith)
  align_loop-IsCut (suc fuel) r lt c k =
      elim (Bool-cases
        (not (r.start % page_sizes (suc i) == 0) && leb (page_sizes i) r.remaining)) [
          | inl e ↦
              let le : page_sizes i ≤ r.remaining = page_sizes-le i r.remaining (ground arith) in
              rw (e, align_loop)
                (align_loop-IsCut fuel (push_frame i r) (fewer r fuel lt le) (pushed r c k le)
                  (keep r k le))
          | inr e ↦ rw (e, align_loop) (c, k, aligned_or_small r.start r.remaining i e)
        ]

  fill_loop-IsCut :
      (fuel : ℕ) (r : Region)
      → r.remaining < fuel
      → IsCut origin end r
      → K r
      → Returns (λ q. IsCut origin end q × K q × (q.remaining < page_sizes i)) (fill_loop fuel i r)
  unfolding fill_loop
  fill_loop-IsCut zero r lt c k = absurd (omega arith)
  fill_loop-IsCut (suc fuel) r lt c k = elim (Bool-cases (leb (page_sizes i) r.remaining)) [
    | inl e ↦
        let le : page_sizes i ≤ r.remaining = page_sizes-le i r.remaining e in
        rw (e, fill_loop)
          (fill_loop-IsCut fuel (push_frame i r) (fewer r fuel lt le) (pushed r c k le)
            (keep r k le))
    | inr e ↦ rw (e, fill_loop) (c, k, page_sizes-lt i r.remaining e)
  ]

-- The alignments that the loops keep.
abbrev K0 : Region → Type 0
K0 r = r.start % 4096 ≡ 0

abbrev K1 : Region → Type 0
K1 r = (r.start % 4096 ≡ 0) × (2097152 ≤ r.remaining → r.start % 2097152 ≡ 0)

abbrev K2 : Region → Type 0
K2 r = K1 r × (1073741824 ≤ r.remaining → r.start % 1073741824 ≡ 0)

keep0 : (r : Region) → K0 r → 4096 ≤ r.remaining → K0 (push_frame 0 r)
unfolding push_frame
keep0 r k le = omega arith

keep1 : (r : Region) → K1 r → 2097152 ≤ r.remaining → K1 (push_frame 1 r)
unfolding push_frame
keep1 r k le = let a : r.start % 2097152 ≡ 0 = k.1 le in (omega (arith, k.0), λ m. omega arith)

keep2 : (r : Region) → K2 r → 1073741824 ≤ r.remaining → K2 (push_frame 2 r)
unfolding push_frame
keep2 r k le =
    let a : r.start % 1073741824 ≡ 0 = k.1 le in ((omega arith, λ m. omega arith), λ m. omega arith)

-- What `carve` leaves: the frames stand one behind the other from the start of the region, aligned to
-- their sizes, and what is left behind the last one is less than the smallest frame.
abbrev pub IsCarved : ℕ → ℕ → Region → Type 0
IsCarved start size r =
    Tiles start r.frames r.start × (r.start + r.remaining ≡ start + size) × (r.remaining < 4096)

pub Tiles-le : (a : ℕ) (fs : List Frame) (b : ℕ) → Tiles a fs b → a ≤ b
Tiles-le a [] b t = omega arith
Tiles-le a (f ∷ fs) b t = omega (arith, Tiles-le (a + page_sizes f.layer) fs b t.3)

-- The remaining size does not grow, so that the rounds stay enough.
IsCut-fuel :
    (origin size fuel : ℕ) (r : Region)
    → IsCut origin (origin + size) r
    → size < fuel
    → r.remaining < fuel
IsCut-fuel origin size fuel r c lt = omega (arith, c.rest, Tiles-le origin r.frames r.start c.tiles)

-- A region that starts at a multiple of 4096 is cut into frames that stand one behind the other from
-- its start, each aligned to its own size, and less than 4096 bytes are left at its end, if the region
-- ends below 2^64; more rounds than the region has bytes are enough.
pub carve-IsCarved :
    (fuel start size : ℕ)
    → size < fuel
    → start % 4096 ≡ 0
    → start + size < 2 ^ 64
    → Returns (IsCarved start size) (carve fuel start size)
unfolding carve
carve-IsCarved fuel start size lt z top =
    Returns-bind _ _ (align_loop fuel 0 whole) _
      (align_loop-IsCut start (start + size) 0 K0 (omega arith) top keep0 (λ r k le. k) fuel whole
        lt (record { tiles = refl; rest = refl }) z)
      λ r0 h0.
        Returns-bind _ _ (align_loop fuel 1 r0) _
          (align_loop-IsCut start (start + size) 1 K1 (omega arith) top keep1 (λ r k le. k.1 le)
            fuel r0 (IsCut-fuel start size fuel r0 h0.0 lt) h0.0 (h0.1, λ m. h0.2 (omega arith)))
          λ r1 h1.
            Returns-bind _ _ (fill_loop fuel 2 r1) _
              (fill_loop-IsCut start (start + size) 2 K2 (omega arith) top keep2 (λ r k le. k.1 le)
                fuel r1 (IsCut-fuel start size fuel r1 h1.0 lt) h1.0
                (h1.1, λ m. h1.2 (omega arith)))
              λ r2 h2.
                Returns-bind _ _ (fill_loop fuel 1 r2) _
                  (fill_loop-IsCut start (start + size) 1 K1 (omega arith) top keep1
                    (λ r k le. k.1 le) fuel r2 (IsCut-fuel start size fuel r2 h2.0 lt) h2.0 h2.1.0)
                  λ r3 h3.
                    Returns-imp (IsCarved start size) (fill_loop fuel 0 r3)
                      (λ r h. (h.0.tiles, h.0.rest, h.2))
                      (fill_loop-IsCut start (start + size) 0 K0 (omega arith) top keep0
                        (λ r k le. k) fuel r3 (IsCut-fuel start size fuel r3 h3.0 lt) h3.0 h3.1.0)
  where
    whole : Region
    whole = record { start = start; remaining = size; frames = [] }
