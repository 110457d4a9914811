-- ===== src/Util/TreeHeap.antt =====
-- kernel/util/tree_heap.h: a binary heap of elements that are linked as a tree. An element stands for
-- its place in the tree, a number: the top's is 1, `prev` of the place k is 2 k, `next` is 2 k + 1, and
-- `tree_parent` is k / 2. The places 1 to `size` are taken, and `_swap`, which links two elements into
-- each other's place, exchanges the elements of two places. `pop` leaves the links of the element that it
-- returns, and `push` resets them, but not where the tree is empty: an element with links makes there
-- a tree that is none of places, which is none here. The
-- comparator orders elements by a number, as the time stamps do that the kernel orders threads and
-- timer events by. The number of leading zero bits is a function of the compiler.
pub mod Find
pub mod Order
pub mod Down
pub mod Contents
pub mod Laws
pub mod Bits
mod Tests
use reaveros.Prelude.{
  ℕ, zero, suc, ◌+◌, ◌-◌, ◌*◌, ◌/◌, ◌^◌, Bool, true, false, Option, none, some, ◌==◌, ltb, leb,
  ◌&&◌, not, if◌then◌else◌,
}

pub record TreeHeap {ℓ} (A : Type ℓ) : Type ℓ where
  pub at : ℕ → A
  pub size : ℕ

abbrev pub put {ℓ} : {A : Type ℓ} → ℕ → A → (ℕ → A) → ℕ → A
put k a at j = if k == j then a else at j

-- `_swap`.
abbrev pub swap {ℓ} : {A : Type ℓ} → ℕ → ℕ → (ℕ → A) → ℕ → A
swap j k at = put j (at k) (put k (at j) at)

-- The loop of `_get_nth`, with the rounds `level - n` that are left.
unfoldable pub descend : ℕ → ℕ → ℕ → ℕ → ℕ → ℕ → ℕ
descend zero level_elements n x nth current = current
descend (suc k) level_elements n x nth current =
    let y = level_elements / 2 ^ n + x in
    elim (ltb y nth) [
      | true ↦ descend k level_elements (suc n) y nth (2 * current + 1)
      | false ↦ descend k level_elements (suc n) x nth (2 * current)
    ]

-- `_get_nth`.
unfoldable pub get_nth : (ℕ → ℕ) → ℕ → ℕ
unfolding descend
get_nth leading_zeroes nth =
    let level = 64 - leading_zeroes nth in
    let level_elements = 2 ^ (level - 1) in
    descend (level - 1) level_elements 1 0 (nth - (level_elements - 1)) 1

module _ {ℓ} {A : Type ℓ} (key : A → ℕ) where
  -- The loop of `push`, from the place of the element on, with the places above it as rounds.
  unfoldable pub sift_up : ℕ → ℕ → (ℕ → A) → ℕ → A
  sift_up zero i at = at
  sift_up (suc fuel) i at = elim (not (i == 1) && ltb (key (at i)) (key (at (i / 2)))) [
    | true ↦ sift_up fuel (i / 2) (swap (i / 2) i at)
    | false ↦ at
  ]

  -- The place of `best` among a place and the two below it, of `size` places.
  abbrev pub better : ℕ → (ℕ → A) → ℕ → ℕ → ℕ
  better size at child best =
      if leb child size && ltb (key (at child)) (key (at best)) then child else best

  abbrev pub best_of : ℕ → (ℕ → A) → ℕ → ℕ
  best_of size at i = better size at (2 * i + 1) (better size at (2 * i) i)

  -- The loop of `pop`.
  unfoldable pub sift_down : ℕ → ℕ → ℕ → (ℕ → A) → ℕ → A
  sift_down zero size i at = at
  sift_down (suc fuel) size i at = elim (best_of size at i == i) [
    | true ↦ at
    | false ↦ sift_down fuel size (best_of size at i) (swap i (best_of size at i) at)
  ]

module _ {ℓ} {A : Type ℓ} (key : A → ℕ) (leading_zeroes : ℕ → ℕ) where
  -- `push` of an element that has no links, or into a tree that is not empty.
  unfoldable pub push_unlinked : A → TreeHeap A → TreeHeap A
  unfolding sift_up get_nth
  push_unlinked element h =
      if h.size == 0
      then (record { at = put 1 element h.at; size = suc h.size })
      else let parent = get_nth leading_zeroes ((h.size + 1) / 2) in
        let i = if leb (2 * parent) h.size then 2 * parent + 1 else 2 * parent in
        record { at = sift_up key i i (put i element h.at); size = suc h.size }

  -- `push` of an element of which `linked` says whether its `prev` or `next` is not null.
  unfoldable pub push : Bool → A → TreeHeap A → Option (TreeHeap A)
  unfolding push_unlinked
  push linked element h = if linked && h.size == 0 then none else some (push_unlinked element h)

  unfoldable pub pop : TreeHeap A → Option (A × TreeHeap A)
  unfolding sift_down get_nth
  pop h =
      if h.size == 0
      then none
      else if h.size == 1
      then some (h.at 1, record { at = h.at; size = 0 })
      else if h.size == 2
      then some (h.at 1, record { at = put 1 (h.at 2) h.at; size = 1 })
      else if h.size == 3
      then some (
        h.at 1,
        record {
          at =
              if ltb (key (h.at 2)) (key (h.at 3))
              then put 2 (h.at 3) (put 1 (h.at 2) h.at)
              else put 1 (h.at 3) h.at;
          size = 2;
        },
      )
      else some (
        h.at 1,
        record {
          at =
              sift_down key h.size (h.size - 1) 1
                (put 1 (h.at (get_nth leading_zeroes h.size)) h.at);
          size = h.size - 1;
        },
      )
