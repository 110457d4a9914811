-- ===== src/Memory/Pmm/Laws.antt =====
-- Taking frames from and giving them back to kernel/memory/pmm.cpp.
use reaveros.Prelude.{
  ℕ, zero, suc, ◌-◌, ◌/◌, ◌^◌, ◌<◌, ◌≡◌, ◌≢◌, refl, sym, ap, subst, ◌∙◌, Bool-cases, true, false,
  List, ◌∷◌, ◌==◌, eq_of_==, ne_of_==, arith, inl, inr,
}
use reaveros.Prelude.Outcome.{Outcome, done, panic, fault, spin, ◌>>=◌, Yields, Yields-bind}
use reaveros.Memory.Pmm.{
  page_size_count, page_sizes, StackInfo, State, inc, dec, set, instance_push, push, split,
  take_top, instance_pop, pop,
}
use reaveros.Memory.Pmm.Layer.{
  set_self, set_other, lock_free, split_held, held, held-infos, held-none, without_top, IsTaken,
  instance_pop-IsTaken, IsPut, instance_push-IsPut, below_count,
}

Yields-spin {ℓ κ μ} :
    {A : Type ℓ} {B : Type κ} (P : A → Type μ) (m : Outcome A) (f : A → Outcome B)
    → Yields P m
    → ((a : A) → P a → f a ≡ spin)
    → (m >>= f) ≡ spin
Yields-spin P (done a) f h k = k a h
Yields-spin P panic f h k = elim h [ ]
Yields-spin P fault f h k = elim h [ ]
Yields-spin P spin f h k = elim h [ ]

-- The layer is empty and the next one is not: the parts of the larger frame are waited for.
instance_pop_empty :
    (higher layer frame n : ℕ) (rest : List ℕ) (s : State)
    → layer < page_size_count
    → page_sizes (suc layer) / page_sizes layer ≡ suc n
    → (s.infos layer).locked ≡ false
    → (s.infos layer).num_frames ≡ 0
    → (s.infos (suc layer)).locked ≡ false
    → (s.infos (suc layer)).num_frames ≢ 0
    → (s.infos (suc layer)).stack ≡ frame ∷ rest
    → instance_pop (suc higher) layer s ≡ spin
unfolding instance_pop
instance_pop_empty higher layer frame n rest s lt parts free none above some top =
    rw (lock_free layer s free, ◌>>=◌)
      (rw (held-none layer s none, ◌>>=◌)
        (Yields-spin (λ r. (r.0 ≡ frame) × IsTaken (suc layer) rest (held layer s) r.1)
          (instance_pop higher (suc layer) (held layer s)) _
          (instance_pop-IsTaken higher (suc layer) frame rest (held layer s)
            (ap (λ i. i.locked) other ∙ above) (λ e. some (sym (ap (λ i. i.num_frames) other) ∙ e))
            (ap (λ i. i.stack) other ∙ top))
          waits))
  where
    other : (held layer s).infos (suc layer) ≡ s.infos (suc layer)
    other = set_other layer (suc layer) _ s.infos (λ e. omega arith)

    waits :
        (r : ℕ × State)
        → (r.0 ≡ frame) × IsTaken (suc layer) rest (held layer s) r.1
        → (split layer r.0 0 (page_sizes (suc layer) / page_sizes layer) r.1 >>= λ v.
            take_top layer v)
          ≡ spin
    waits r k =
        let still : (r.1.infos layer).locked ≡ true =
          ap (λ i. i.locked) (k.1.others layer (λ e. omega arith) ∙ held-infos layer s) in
        rw (parts) (rw (split_held layer r.0 0 n r.1 lt still) refl)

-- A frame of one of the two smaller sizes is asked for, there is none, and the next size has some: the
-- larger frame is handed to `pmm::push` in parts while the lock of the smaller size is held, which
-- `pmm::push` waits for. The call never returns.
pub pop_empty_spins :
    (layer frame : ℕ) (rest : List ℕ) (s : State)
    → suc layer < page_size_count
    → (s.infos layer).locked ≡ false
    → (s.infos layer).num_frames ≡ 0
    → (s.infos (suc layer)).locked ≡ false
    → (s.infos (suc layer)).num_frames ≢ 0
    → (s.infos (suc layer)).stack ≡ frame ∷ rest
    → pop layer s ≡ spin
unfolding pop
pop_empty_spins zero frame rest s lt free none above some top =
    rw (instance_pop_empty 1 0 frame 511 rest s (omega arith) refl free none above some top) refl
pop_empty_spins (suc zero) frame rest s lt free none above some top =
    rw (instance_pop_empty 0 1 frame 511 rest s (omega arith) refl free none above some top) refl
pop_empty_spins (suc (suc layer)) frame rest s lt free none above some top = absurd (omega arith)

-- The two states hold the same frames under the same locks, and count the same.
abbrev pub IsSame : State → State → Type 0
IsSame s t =
    ((j : ℕ) → t.infos j ≡ s.infos j)
    × ((j : ℕ) → t.free_frames j ≡ s.free_frames j)
    × ((j : ℕ) → t.used_frames j ≡ s.used_frames j)

-- The counts of a layer are below 2^64, and there is room for one frame more.
abbrev pub HasRoom : ℕ → State → Type 0
HasRoom layer s =
    ((s.infos layer).num_frames < 2 ^ 64 - 1)
    × (s.free_frames layer < 2 ^ 64)
    × (s.used_frames layer < 2 ^ 64)

dec-inc : (n : ℕ) → n < 2 ^ 64 → dec (inc n) ≡ n
dec-inc n lt = omega arith

inc-dec : (n : ℕ) → n < 2 ^ 64 → inc (dec n) ≡ n
inc-dec n lt = omega arith

-- An array in which one count goes up and down again.
restored :
    (up down : ℕ → ℕ) (layer : ℕ) (f g h : ℕ → ℕ)
    → ((j : ℕ) → g j ≡ f j)
    → ((j : ℕ) → h j ≡ set layer (up (g layer)) g j)
    → down (up (f layer)) ≡ f layer
    → (j : ℕ) → set layer (down (h layer)) h j ≡ f j
restored up down layer f g h same e back j = elim (Bool-cases (layer == j)) [
  | inl q ↦ rw q (
      ap down (e layer ∙ set_self layer (up (g layer)) g ∙ ap up (same layer))
      ∙ back
      ∙ ap f (eq_of_== layer j q))
  | inr q ↦ rw q (e j ∙ set_other layer j (up (g layer)) g (ne_of_== layer j q) ∙ same j)
]

same_info :
    (i : StackInfo)
    → i.locked ≡ false
    → i.num_frames < 2 ^ 64 - 1
    → record { locked = false; stack = i.stack; num_frames = dec (inc i.num_frames) } ≡ i
same_info i free lt = rw (dec-inc i.num_frames (omega arith)) (
    ap {B = StackInfo} (λ b. record { locked = b; stack = i.stack; num_frames = i.num_frames })
      (sym free))

-- A frame that is given back is the next one of its size that is taken, and taking it leaves every
-- stack, every lock and every count as it was before it was given back.
pub pop-push :
    (layer frame : ℕ) (s : State)
    → layer < page_size_count
    → (s.infos layer).locked ≡ false
    → HasRoom layer s
    → Yields (λ t. Yields (λ r. (r.0 ≡ frame) × IsSame s r.1) (pop layer t)) (push layer frame s)
unfolding pop push
pop-push layer frame s lt free room = rw (below_count layer lt) (
    Yields-bind (IsPut layer frame s) _ (instance_push layer frame s) _
      (instance_push-IsPut layer frame s free)
      λ t p.
        Yields-bind
          (λ (r : ℕ × State). (r.0 ≡ frame) × IsTaken layer (s.infos layer).stack (counted t) r.1) _
          (instance_pop (2 - layer) layer (counted t)) _
          (instance_pop-IsTaken (2 - layer) layer frame (s.infos layer).stack (counted t)
            (ap (λ i. i.locked) p.here) (λ e. grown (sym (ap (λ i. i.num_frames) p.here) ∙ e))
            (ap (λ i. i.stack) p.here))
          λ r k. (
            k.0,
            (
              infos t r.1 p k.1,
              restored inc dec layer s.free_frames t.free_frames r.1.free_frames
                  (λ j. ap (λ f. f j) p.free) k.1.free (dec-inc _ room.1),
              restored dec inc layer s.used_frames t.used_frames r.1.used_frames
                  (λ j. ap (λ f. f j) p.used) k.1.used (inc-dec _ room.2),
            ),
          ))
  where
    counted : State → State
    counted t = record t {
      used_frames = set layer (dec (t.used_frames layer)) t.used_frames;
      free_frames = set layer (inc (t.free_frames layer)) t.free_frames;
    }

    grown : inc (s.infos layer).num_frames ≢ 0
    grown e = omega (arith, room.0)

    infos :
        (t u : State)
        → IsPut layer frame s t
        → IsTaken layer (s.infos layer).stack (counted t) u
        → (j : ℕ) → u.infos j ≡ s.infos j
    infos t u p k j = elim (Bool-cases (layer == j)) [
      | inl q ↦
          subst (λ j. u.infos j ≡ s.infos j) (eq_of_== layer j q)
            (k.here
              ∙ ap (without_top (s.infos layer).stack) p.here
              ∙ same_info (s.infos layer) free room.0)
      | inr q ↦ k.others j (ne_of_== layer j q) ∙ p.others j (ne_of_== layer j q)
    ]
