-- ===== src/Util/IntrusivePtr.antt =====
-- kernel/util/intrusive_ptr.h: pointers to objects with a count of their owners. The pointers are
-- variables with the numbers from 1 on, an object is its address, and 0 is the null pointer. The objects
-- are of a type `T` whose destructor destroys no such pointers, so that each pointer outlives what is
-- deleted. A deleted object must not be touched again: that is a fault.
pub mod Counts
pub mod Operations
mod Tests
use reaveros.Prelude.{ℕ, ◌+◌, ◌-◌, ◌%◌, ◌^◌, Bool, true, false, ◌==◌, not, if◌then◌else◌}
use reaveros.Prelude.Outcome.{Outcome, done, fault, ◌>>=◌}
use reaveros.Util.TreeHeap.{put}

-- The pointers' `_ptr`, the objects' `intrusive_count`, and whether they are not yet deleted.
pub record Owners : Type 0 where
  pub ptr : ℕ → ℕ
  pub intrusive_count : ℕ → ℕ
  pub live : ℕ → Bool

abbrev pub set_ptr : ℕ → ℕ → Owners → Owners
set_ptr i p s = record s { ptr = put i p s.ptr }

-- `_claim`.
unfoldable pub claim : ℕ → Owners → Outcome Owners
claim i s =
    if s.ptr i == 0
    then done s
    else if s.live (s.ptr i)
    then done (record s {
      intrusive_count =
          put (s.ptr i) ((s.intrusive_count (s.ptr i) + 1) % 2 ^ 64) s.intrusive_count;
    })
    else fault

-- `_disown`, where the object goes with its last owner.
unfoldable pub disown : ℕ → Owners → Outcome Owners
disown i s =
    if s.ptr i == 0
    then done s
    else if s.live (s.ptr i)
    then done (record s {
      intrusive_count =
          put (s.ptr i) ((s.intrusive_count (s.ptr i) + (2 ^ 64 - 1)) % 2 ^ 64) s.intrusive_count;
      live = put (s.ptr i) (not (s.intrusive_count (s.ptr i) == 1)) s.live;
    })
    else fault

-- The copying constructor, on a variable that holds nothing.
unfoldable pub copy_construct : ℕ → ℕ → Owners → Outcome Owners
unfolding claim
copy_construct i j s = claim i (set_ptr i (s.ptr j) s)

-- The moving constructor.
abbrev pub move_construct : ℕ → ℕ → Owners → Outcome Owners
move_construct i j s = done (set_ptr i (s.ptr j) (set_ptr j 0 s))

-- The assignments.
unfoldable pub copy_assign : ℕ → ℕ → Owners → Outcome Owners
unfolding claim disown
copy_assign i j s = disown i s >>= λ t. claim i (set_ptr i (t.ptr j) t)

unfoldable pub move_assign : ℕ → ℕ → Owners → Outcome Owners
unfolding disown
move_assign i j s = disown i s >>= λ t. done (set_ptr i (t.ptr j) (set_ptr j 0 t))

-- The destructor, behind which the variable holds nothing.
unfoldable pub destroy_ptr : ℕ → Owners → Outcome Owners
unfolding disown
destroy_ptr i s = disown i s >>= λ t. done (set_ptr i 0 t)

-- The operations on pointers, each with its variable and the one that it copies or moves.
pub data Operation : Type 0 where
  copy move copy_to move_to : ℕ → ℕ → Operation
  destroy : ℕ → Operation

unfoldable pub apply : Operation → Owners → Outcome Owners
unfolding copy_construct copy_assign move_assign destroy_ptr
apply (copy i j) s = copy_construct i j s
apply (move i j) s = move_construct i j s
apply (copy_to i j) s = copy_assign i j s
apply (move_to i j) s = move_assign i j s
apply (destroy i) s = destroy_ptr i s
