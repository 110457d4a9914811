-- ===== src/Util/Fifo.antt =====
-- kernel/util/fifo.h: a queue of elements that are linked through a field of their own. An element is
-- its address, a positive number, and 0 is the null pointer; the field `next` of every element is a
-- store, which other lists of the same elements write too.
pub mod Refine
use reaveros.Prelude.{ℕ, ◌+◌, ◌-◌, ◌^◌, ◌%◌, Option, none, some, Bool, ◌==◌, if◌then◌else◌}

pub record Fifo : Type 0 where
  pub head : ℕ
  pub tail : ℕ
  pub size : ℕ

-- The fields `next`, and the queue.
pub record State : Type 0 where
  pub next : ℕ → ℕ
  pub fifo : Fifo

unfoldable pub create : Fifo
create = record { head = 0; tail = 0; size = 0 }

abbrev pub set_next : ℕ → ℕ → (ℕ → ℕ) → ℕ → ℕ
set_next a v next b = if a == b then v else next b

-- `++_size` and `--_size` of a `std::size_t`.
abbrev size_inc : ℕ → ℕ
size_inc n = (n + 1) % 2 ^ 64

abbrev size_dec : ℕ → ℕ
size_dec n = (n + (2 ^ 64 - 1)) % 2 ^ 64

-- The links after an element is appended behind another one.
abbrev pub appended : ℕ → ℕ → (ℕ → ℕ) → ℕ → ℕ
appended tail element next =
    let linked = set_next tail element next in set_next (linked tail) 0 linked

unfoldable pub push_back : ℕ → State → State
push_back element s =
    if s.fifo.head == 0
    then (record {
      next = set_next element 0 s.next;
      fifo = record { head = element; tail = element; size = size_inc s.fifo.size };
    })
    else (record {
      next = appended s.fifo.tail element s.next;
      fifo = record {
        head = s.fifo.head;
        tail = appended s.fifo.tail element s.next s.fifo.tail;
        size = size_inc s.fifo.size;
      };
    })

unfoldable pub empty : State → Bool
empty s = s.fifo.head == 0

-- The element and the queue without it; the tail stays as it is.
unfoldable pub pop_front : State → Option (ℕ × State)
unfolding empty
pop_front s =
    if empty s
    then none
    else some (
      s.fifo.head,
      record s {
        fifo = record (s.fifo) { head = s.next s.fifo.head; size = size_dec s.fifo.size };
      },
    )
