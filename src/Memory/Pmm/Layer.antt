-- ===== src/Memory/Pmm/Layer.antt =====
-- What the operations of kernel/memory/pmm.cpp do to the stack of one layer, and to its lock.
use reaveros.Prelude.{
  ℕ, zero, suc, ◌+◌, ◌*◌, ◌<◌, ◌≡◌, ◌≢◌, refl, sym, ap, ◌∙◌, true, false, List, ◌∷◌, ◌==◌, ==-refl,
  ==-false, leb, arith,
}
use reaveros.Prelude.Outcome.{done, spin, ◌>>=◌, Yields}
use reaveros.Memory.Pmm.{
  page_size_count, page_sizes, StackInfo, State, inc, dec, set, set_info, lock, unlock, stacked,
  instance_push, push, split, take_top, instance_pop,
}

pub set_self {ℓ} : {A : Type ℓ} (i : ℕ) (v : A) (f : ℕ → A) → set i v f i ≡ v
set_self i v f = rw (==-refl i i refl) refl

pub set_other {ℓ} : {A : Type ℓ} (i j : ℕ) (v : A) (f : ℕ → A) → i ≢ j → set i v f j ≡ f j
set_other i j v f n = rw (==-false i j n) refl

lock_held : (layer : ℕ) (s : State) → (s.infos layer).locked ≡ true → lock layer s ≡ spin
unfolding lock
lock_held layer s e = rw (e, lock) refl

pub lock_free :
    (layer : ℕ) (s : State)
    → (s.infos layer).locked ≡ false
    → lock layer s ≡ done (set_info layer (record (s.infos layer) { locked = true }) s)
unfolding lock
lock_free layer s e = rw (e, lock) refl

push_held :
    (layer frame : ℕ) (s : State)
    → layer < page_size_count
    → (s.infos layer).locked ≡ true
    → push layer frame s ≡ spin
unfolding push
push_held layer frame s lt e = rw (below lt) (rw (lock_held layer s e) refl)
  where
    below : layer < 3 → leb 3 layer ≡ false
    below lt = ground arith

pub split_held :
    (layer frame i n : ℕ) (s : State)
    → layer < page_size_count
    → (s.infos layer).locked ≡ true
    → split layer frame i (suc n) s ≡ spin
unfolding split
split_held layer frame i n s lt e = rw (push_held layer (frame + i * page_sizes layer) s lt e) refl

-- What is left of a layer whose top has been taken.
abbrev pub without_top : List ℕ → StackInfo → StackInfo
without_top rest i = record { locked = false; stack = rest; num_frames = dec i.num_frames }

-- One frame has been taken off the layer, whose lock is free again.
pub record IsTaken (layer : ℕ) (rest : List ℕ) (s t : State) : Type 0 where
  pub here : t.infos layer ≡ without_top rest (s.infos layer)
  pub others : (j : ℕ) → layer ≢ j → t.infos j ≡ s.infos j
  pub free : (j : ℕ) → t.free_frames j ≡ s.free_frames j
  pub used : (j : ℕ) → t.used_frames j ≡ s.used_frames j

unlock_here :
    (layer : ℕ) (i : StackInfo) (s : State)
    → (unlock layer (set_info layer i s)).infos layer ≡ record i { locked = false }
unfolding unlock
unlock_here layer i s =
    set_self layer (record (set layer i s.infos layer) { locked = false }) (set layer i s.infos)
    ∙ ap {A = StackInfo} {B = StackInfo} (λ k. record k { locked = false })
        (set_self layer i s.infos)

unlock_other :
    (layer j : ℕ) (i : StackInfo) (s : State)
    → layer ≢ j
    → (unlock layer (set_info layer i s)).infos j ≡ s.infos j
unfolding unlock
unlock_other layer j i s n =
    set_other layer j (record (set layer i s.infos layer) { locked = false }) (set layer i s.infos)
      n
    ∙ set_other layer j i s.infos n

take_top-IsTaken :
    (layer frame : ℕ) (rest : List ℕ) (s t : State)
    → (t.infos layer).stack ≡ frame ∷ rest
    → (t.infos layer).num_frames ≡ (s.infos layer).num_frames
    → ((j : ℕ) → layer ≢ j → t.infos j ≡ s.infos j)
    → t.free_frames ≡ s.free_frames
    → t.used_frames ≡ s.used_frames
    → Yields (λ r. (r.0 ≡ frame) × IsTaken layer rest s r.1) (take_top layer t)
unfolding take_top
take_top-IsTaken layer frame rest s t top count others free used =
    rw (top, take_top)
      (
        refl,
        record {
          here =
              unlock_here layer
                (record (t.infos layer) {
                  stack = rest;
                  num_frames = dec (t.infos layer).num_frames;
                })
                t
              ∙ ap {B = StackInfo}
                  (λ n. record { locked = false; stack = rest; num_frames = dec n }) count;
          others = λ j n.
              unlock_other layer j
                (record (t.infos layer) {
                  stack = rest;
                  num_frames = dec (t.infos layer).num_frames;
                })
                t n
              ∙ others j n;
          free = λ j. ap (λ f. f j) free;
          used = λ j. ap (λ f. f j) used;
        },
      )

-- The state behind `lock`.
abbrev pub held : ℕ → State → State
held layer s = set_info layer (record (s.infos layer) { locked = true }) s

pub held-infos :
    (layer : ℕ) (s : State) → (held layer s).infos layer ≡ record (s.infos layer) { locked = true }
held-infos layer s = set_self layer _ s.infos

held-take_top :
    (layer frame : ℕ) (rest : List ℕ) (s : State)
    → (s.infos layer).stack ≡ frame ∷ rest
    → Yields (λ r. (r.0 ≡ frame) × IsTaken layer rest s r.1) (take_top layer (held layer s))
held-take_top layer frame rest s top =
    take_top-IsTaken layer frame rest s (held layer s)
      (ap (λ i. i.stack) (held-infos layer s) ∙ top) (ap (λ i. i.num_frames) (held-infos layer s))
      (λ j n. set_other layer j _ s.infos n) refl refl

held-some :
    (layer : ℕ) (s : State)
    → (s.infos layer).num_frames ≢ 0
    → (((held layer s).infos layer).num_frames == 0) ≡ false
held-some layer s some =
    ==-false _ 0 (λ e. some (sym (ap (λ i. i.num_frames) (held-infos layer s)) ∙ e))

pub held-none :
    (layer : ℕ) (s : State)
    → (s.infos layer).num_frames ≡ 0
    → (((held layer s).infos layer).num_frames == 0) ≡ true
held-none layer s none = ==-refl _ 0 (ap (λ i. i.num_frames) (held-infos layer s) ∙ none)

pub instance_pop-IsTaken :
    (higher layer frame : ℕ) (rest : List ℕ) (s : State)
    → (s.infos layer).locked ≡ false
    → (s.infos layer).num_frames ≢ 0
    → (s.infos layer).stack ≡ frame ∷ rest
    → Yields (λ r. (r.0 ≡ frame) × IsTaken layer rest s r.1) (instance_pop higher layer s)
unfolding instance_pop
instance_pop-IsTaken zero layer frame rest s free some top =
    rw (lock_free layer s free) (rw (held-some layer s some) (held-take_top layer frame rest s top))
instance_pop-IsTaken (suc higher) layer frame rest s free some top =
    rw (lock_free layer s free, ◌>>=◌)
      (rw (held-some layer s some, ◌>>=◌) (held-take_top layer frame rest s top))

pub below_count : (layer : ℕ) → layer < 3 → leb 3 layer ≡ false
below_count layer lt = ground arith

-- One frame has been put on the layer, whose lock is free again.
pub record IsPut (layer frame : ℕ) (s t : State) : Type 0 where
  pub here : t.infos layer ≡ record {
    locked = false;
    stack = frame ∷ (s.infos layer).stack;
    num_frames = inc (s.infos layer).num_frames;
  }
  pub others : (j : ℕ) → layer ≢ j → t.infos j ≡ s.infos j
  pub free : t.free_frames ≡ s.free_frames
  pub used : t.used_frames ≡ s.used_frames

pub instance_push-IsPut :
    (layer frame : ℕ) (s : State)
    → (s.infos layer).locked ≡ false
    → Yields (IsPut layer frame s) (instance_push layer frame s)
unfolding instance_push
instance_push-IsPut layer frame s free =
    rw (lock_free layer s free, ◌>>=◌)
      (record {
        here =
            unlock_here layer (stacked frame ((held layer s).infos layer)) (held layer s)
            ∙ ap {B = StackInfo}
                (λ i. record {
                  locked = false;
                  stack = frame ∷ i.stack;
                  num_frames = inc i.num_frames;
                })
                (held-infos layer s);
        others = λ j n.
            unlock_other layer j (stacked frame ((held layer s).infos layer)) (held layer s) n
            ∙ set_other layer j _ s.infos n;
        free = refl;
        used = refl;
      })
