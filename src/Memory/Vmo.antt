-- ===== src/Memory/Vmo.antt =====
-- kernel/memory/vmo.h and vmo.cpp: the memory objects. The elements of a sparse one stand in the order
-- of their offsets, which is that of the tree that keeps them. `commit_between_offsets` is called for
-- the whole object only: the search for 0 finds the first element, whose offset it is, and the search
-- for the length passes by all elements, so that the loop goes over all of them.
pub mod Commit
use reaveros.Prelude.{
  ℕ, zero, suc, ◌+◌, ◌-◌, ◌%◌, ◌^◌, Bool, true, false, Option, none, some, List, [], ◌∷◌, ◌++◌, ltb,
}
use reaveros.Prelude.Outcome.{Outcome, done, spin, ◌>>=◌}
use reaveros.Memory.Pmm.{State, page_sizes, push, pop}

-- `_sparse_vmo_element`.
pub record Element : Type 0 where
  pub offset : ℕ
  pub backing_address : Option ℕ

-- `_vmo_state`, with `vmo_type` for the constructors.
pub data VmoState : Type 0 where
  physical : ℕ → VmoState
  sparse : List Element → VmoState

pub record Vmo : Type 0 where
  pub state : VmoState
  pub length : ℕ
  pub aligned_to_page_level : ℕ

-- length += (page_size - length) % page_size, on words.
abbrev pub rounded : ℕ → ℕ → ℕ
rounded level length =
    (length + (page_sizes level + (2 ^ 64 - length)) % 2 ^ 64 % page_sizes level) % 2 ^ 64

abbrev pub create_physical_vmo : ℕ → ℕ → ℕ → Vmo
create_physical_vmo base length level = record {
  state = physical base;
  length = rounded level length;
  aligned_to_page_level = level;
}

abbrev pub create_sparse_vmo : ℕ → ℕ → Vmo
create_sparse_vmo length level = record {
  state = sparse (record { offset = 0; backing_address = none } ∷ []);
  length = rounded level length;
  aligned_to_page_level = level;
}

-- The loop over the elements in `~vmo`.
unfoldable pub release_elements : ℕ → List Element → State → Outcome State
release_elements level [] s = done s
release_elements level (e ∷ es) s = elim e.backing_address [
  | none ↦ release_elements level es s
  | some frame ↦ push level frame s >>= λ t. release_elements level es t
]

-- `~vmo`.
unfoldable pub destroy_vmo : Vmo → State → Outcome State
unfolding release_elements
destroy_vmo v s = elim v.state [
  | physical base ↦ done s
  | sparse elements ↦ release_elements v.aligned_to_page_level elements s
]

-- The inner loop of `commit_between_offsets`, with the assignment behind it: an element without a
-- frame becomes one for each page up to the next element.
unfoldable pub fill : ℕ → ℕ → ℕ → ℕ → State → Outcome (List Element × State)
fill zero level next_offset offset s = spin
fill (suc fuel) level next_offset offset s = pop level s >>= λ (frame, t).
    let e : Element = record { offset = offset; backing_address = some frame } in
    elim (ltb ((offset + page_sizes level) % 2 ^ 64) next_offset) [
      | false ↦ done (e ∷ [], t)
      | true ↦ fill fuel level next_offset ((offset + page_sizes level) % 2 ^ 64) t >>= λ (es, u).
          done (e ∷ es, u)
    ]

-- The offset at which the element before these ends.
abbrev pub next_offset_of : ℕ → List Element → ℕ
next_offset_of length [] = length
next_offset_of length (e ∷ es) = e.offset

-- The outer loop.
unfoldable pub commit_elements : ℕ → ℕ → ℕ → List Element → State → Outcome (List Element × State)
unfolding fill
commit_elements fuel level length [] s = done ([], s)
commit_elements fuel level length (e ∷ es) s = elim e.backing_address [
  | some frame ↦ commit_elements fuel level length es s >>= λ (rest, t). done (e ∷ rest, t)
  | none ↦ fill fuel level (next_offset_of length es) e.offset s >>= λ (new, t).
      commit_elements fuel level length es t >>= λ (rest, u). done (new ++ rest, u)
]

-- `commit_all`.
unfoldable pub commit_all : ℕ → Vmo → State → Outcome (Vmo × State)
unfolding commit_elements
commit_all fuel v s = elim v.state [
  | physical base ↦ done (v, s)
  | sparse elements ↦
      commit_elements fuel v.aligned_to_page_level v.length elements s >>= λ (es, t).
      done (record v { state = sparse es }, t)
]
