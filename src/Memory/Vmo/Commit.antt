-- ===== src/Memory/Vmo/Commit.antt =====
-- The commitment of the memory objects of kernel/memory/vmo.cpp.
use reaveros.Prelude.{
  ℕ, zero, suc, ◌+◌, ◌-◌, ◌*◌, ◌/◌, ◌%◌, ◌^◌, ◌≤◌, ◌<◌, max, ◌≡◌, refl, sym, ap, subst, ◌∙◌, true,
  false, Option, none, some, List, [], ◌∷◌, ◌++◌, append-nil, ltb, arith, Returns, All, inl, inr,
  Bool-cases, if◌then◌else◌,
}
use reaveros.Prelude.Outcome.{Outcome, done, ◌>>=◌, bind-ext, bind_assoc}
use reaveros.Memory.Pmm.{State, page_sizes, pop}
use reaveros.Memory.Vmo.{
  Element, sparse, Vmo, rounded, create_sparse_vmo, fill, commit_elements, commit_all,
}

-- As many frames as asked for, in the order in which they are taken.
unfoldable pub pops : ℕ → ℕ → State → Outcome (List ℕ × State)
pops zero level s = done ([], s)
pops (suc n) level s =
    pop level s >>= λ (frame, t). pops n level t >>= λ (frames, u). done (frame ∷ frames, u)

-- An element for each of the frames, a page apart.
unfoldable pub backed : ℕ → ℕ → List ℕ → List Element
backed size offset [] = []
backed size offset (frame ∷ frames) =
    record { offset = offset; backing_address = some frame } ∷ backed size (offset + size) frames

-- The pages from the offset on, beside its own.
abbrev IsPaged : ℕ → ℕ → ℕ → ℕ → Type 0
IsPaged size next zero offset = (next ≤ offset + size) × (offset + size < 2 ^ 64)
IsPaged size next (suc k) offset =
    (offset + size < next) × (offset + size < 2 ^ 64) × IsPaged size next k (offset + size)

abbrev element_at : ℕ → ℕ → Element
element_at offset frame = record { offset = offset; backing_address = some frame }

-- What is made of the elements, or of the frames, that are had.
abbrev followed : Element → List Element × State → Outcome (List Element × State)
followed e r = done (e ∷ r.0, r.1)

abbrev pub numbered : ℕ → ℕ → List ℕ × State → Outcome (List Element × State)
numbered size offset r = done (backed size offset r.0, r.1)

abbrev filled : ℕ → ℕ → ℕ → ℕ → ℕ × State → Outcome (List Element × State)
filled fuel level next offset r =
    fill fuel level next (offset + page_sizes level) r.1 >>= followed (element_at offset r.0)

fill-last :
    (fuel level next offset : ℕ) (s : State)
    → offset + page_sizes level < 2 ^ 64
    → next ≤ offset + page_sizes level
    → fill (suc fuel) level next offset s
      ≡ (pop level s >>= λ r. done (element_at offset r.0 ∷ [], r.1))
unfolding fill
fill-last fuel level next offset s w h =
    let e : ltb ((offset + page_sizes level) % 2 ^ 64) next ≡ false = ground arith in rw e refl

fill-more :
    (fuel level next offset o : ℕ) (s : State)
    → (offset + page_sizes level) % 2 ^ 64 ≡ o
    → o < next
    → fill (suc fuel) level next offset s
      ≡ (pop level s >>= λ r. fill fuel level next o r.1 >>= followed (element_at offset r.0))
unfolding fill
fill-more fuel level next offset o s w h =
    subst
      (λ o.
        fill (suc fuel) level next offset s
        ≡ (pop level s >>= λ r. fill fuel level next o r.1 >>= followed (element_at offset r.0)))
      w (let e : ltb ((offset + page_sizes level) % 2 ^ 64) next ≡ true = ground arith in rw e refl)

pops-suc :
    (k level offset : ℕ) (s : State)
    → (pops (suc k) level s >>= numbered (page_sizes level) offset) ≡ (
        pop level s >>= λ r.
        pops k level r.1
        >>= numbered (page_sizes level) (offset + page_sizes level)
        >>= followed (element_at offset r.0))
unfolding pops backed
pops-suc k level offset s =
    bind_assoc (pop level s) _ _
    ∙ bind-ext (pop level s) _ _
        (λ r. bind_assoc (pops k level r.1) _ _ ∙ sym (bind_assoc (pops k level r.1) _ _))

fill_lem :
    (k fuel level next offset : ℕ) (s : State)
    → k < fuel
    → IsPaged (page_sizes level) next k offset
    → fill fuel level next offset s ≡ (pops (suc k) level s >>= numbered (page_sizes level) offset)
unfolding pops backed
fill_lem k zero level next offset s lt p = let x : ⊥ = omega (arith, lt) in elim x [ ]
fill_lem zero (suc fuel) level next offset s lt p =
    fill-last fuel level next offset s (p.1) (p.0) ∙ sym (bind_assoc (pop level s) _ _)
fill_lem (suc k) (suc fuel) level next offset s lt p =
    fill-more fuel level next offset (offset + page_sizes level) s (omega (arith, p.1)) (p.0)
    ∙ bind-ext (pop level s) _ _ (λ r.
      ap (λ (m : Outcome (List Element × State)). m >>= followed (element_at offset r.0))
        (fill_lem k fuel level next (offset + page_sizes level) r.1 (omega arith) (p.2)))
    ∙ sym (pops-suc (suc k) level offset s)

-- The pages of an object, of which there is one also in an empty one.
abbrev pub pages_of : Vmo → ℕ
pages_of v = max 1 (v.length / page_sizes v.aligned_to_page_level)

abbrev pub fresh : ℕ → ℕ → List ℕ × State → Outcome (Vmo × State)
fresh length level r = done (
  record (create_sparse_vmo length level) { state = sparse (backed (page_sizes level) 0 r.0) },
  r.1,
)

IsPaged-divided :
    (size next k offset : ℕ)
    → 0 < size
    → next ≡ offset + suc k * size
    → next < 2 ^ 64
    → IsPaged size next k offset
IsPaged-divided size next zero offset z e h = (omega (arith, e), omega (arith, e))
IsPaged-divided size next (suc k) offset z e h =
    let p : 0 ≤ k * size = omega arith in
    (
      grind (arith, e),
      grind (arith, e),
      IsPaged-divided size next k (offset + size) z (grind (arith, e)) h,
    )

rounded-divided :
    (level length : ℕ)
    → length < 2 ^ 64
    → (0 < page_sizes level)
      × (rounded level length ≡ rounded level length / page_sizes level * page_sizes level)
      × (rounded level length + page_sizes level ≤ 2 ^ 64)
rounded-divided zero length h = (omega arith, omega arith, omega arith)
rounded-divided (suc zero) length h = (omega arith, omega arith, omega arith)
rounded-divided (suc (suc l)) length h = (omega arith, omega arith, omega arith)

-- A length of a number of pages.
IsPaged-pages :
    (size next q : ℕ)
    → 0 < size
    → next ≡ q * size
    → next + size ≤ 2 ^ 64
    → size < 2 ^ 64
    → (k : ℕ) × (suc k ≡ max 1 q) × IsPaged size next k 0
IsPaged-pages size next zero z e h w = (zero, omega arith, (omega (arith, e), omega (arith, w)))
IsPaged-pages size next (suc k) z e h w =
    (k, omega arith, IsPaged-divided size next k 0 z (omega (arith, e)) (omega (arith, z, h)))

page_sizes-small : (level : ℕ) → page_sizes level < 2 ^ 64
page_sizes-small zero = omega arith
page_sizes-small (suc zero) = omega arith
page_sizes-small (suc (suc l)) = omega arith

commit_all-run :
    (fuel level length : ℕ) (s : State)
    → commit_all fuel (create_sparse_vmo length level) s ≡ (
        fill fuel level (rounded level length) 0 s >>= λ r.
        done (record (create_sparse_vmo length level) { state = sparse (r.0 ++ []) }, r.1))
unfolding commit_all commit_elements
commit_all-run fuel level length s = bind_assoc (fill fuel level (rounded level length) 0 s) _ _

pub commit_all-fresh :
    (fuel level length : ℕ) (s : State)
    → length < 2 ^ 64
    → pages_of (create_sparse_vmo length level) ≤ fuel
    → commit_all fuel (create_sparse_vmo length level) s
      ≡ (pops (pages_of (create_sparse_vmo length level)) level s >>= fresh length level)
commit_all-fresh fuel level length s h f =
    let d = rounded-divided level length h in
    let p =
      IsPaged-pages (page_sizes level) (rounded level length)
        (rounded level length / page_sizes level) (d.0) (d.1) (d.2) (page_sizes-small level) in
    commit_all-run fuel level length s
    ∙ ap
        (λ (m : Outcome (List Element × State)). m >>= λ r.
          done (record (create_sparse_vmo length level) { state = sparse (r.0 ++ []) }, r.1))
        (fill_lem p.0 fuel level (rounded level length) 0 s (omega (arith, p.1, f)) p.2)
    ∙ bind_assoc (pops (suc p.0) level s) _ _
    ∙ bind-ext (pops (suc p.0) level s) _ _ (λ r.
      ap
        (λ (es : List Element).
          done (record (create_sparse_vmo length level) { state = sparse es }, r.1))
        (append-nil (backed (page_sizes level) 0 r.0)))
    ∙ ap (λ n. pops n level s >>= fresh length level) (p.1)

abbrev IsBacked : Element → Type 0
IsBacked e = Returns (λ frame. Unit {0}) e.backing_address

backed-AllBacked : (size offset : ℕ) (fs : List ℕ) → All IsBacked (backed size offset fs)
unfolding backed
backed-AllBacked size offset [] = tt
backed-AllBacked size offset (f ∷ fs) = (tt, backed-AllBacked size (offset + size) fs)

commit_elements-kept :
    (fuel level length o : ℕ) (b : Option ℕ) (es : List Element) (s : State)
    → Returns (λ frame. Unit {0}) b
    → commit_elements fuel level length es s ≡ done (es, s)
    → commit_elements fuel level length (record { offset = o; backing_address = b } ∷ es) s
      ≡ done (record { offset = o; backing_address = b } ∷ es, s)
unfolding commit_elements
commit_elements-kept fuel level length o none es s h e = elim h [ ]
commit_elements-kept fuel level length o (some f) es s h e = rw e refl

commit_elements-backed :
    (fuel level length : ℕ) (es : List Element) (s : State)
    → All IsBacked es
    → commit_elements fuel level length es s ≡ done (es, s)
unfolding commit_elements
commit_elements-backed fuel level length [] s h = refl
commit_elements-backed fuel level length (e ∷ es) s h =
    commit_elements-kept fuel level length (e.offset) (e.backing_address) es s (h.0)
      (commit_elements-backed fuel level length es s h.1)

-- To commit a fresh sparse object twice is to commit it once: no frame is taken again, and no element
-- is changed.
pub commit_all-commit_all :
    (fuel level length : ℕ) (s : State)
    → length < 2 ^ 64
    → pages_of (create_sparse_vmo length level) ≤ fuel
    → (commit_all fuel (create_sparse_vmo length level) s >>= λ (v, t). commit_all fuel v t)
      ≡ commit_all fuel (create_sparse_vmo length level) s
unfolding commit_all
commit_all-commit_all fuel level length s h f =
    let e = commit_all-fresh fuel level length s h f in
    ap (λ (m : Outcome (Vmo × State)). m >>= λ r. commit_all fuel r.0 r.1) e
    ∙ bind_assoc (pops (pages_of (create_sparse_vmo length level)) level s) _ _
    ∙ bind-ext (pops (pages_of (create_sparse_vmo length level)) level s) _ _ (λ r.
      rw
        (commit_elements-backed fuel level (rounded level length) (backed (page_sizes level) 0 r.0)
          r.1 (backed-AllBacked (page_sizes level) 0 r.0))
        refl)
    ∙ sym e

-- The length of an object is the least number of whole pages that the length asked for fits in, but
-- where the pages reach 2^64, and the length becomes 0.
pub create_sparse_vmo-length :
    (level length : ℕ)
    → length < 2 ^ 64
    → (create_sparse_vmo length level).length ≡ (
        if ltb (2 ^ 64 - page_sizes level) length
        then 0
        else (length + (page_sizes level - 1)) / page_sizes level * page_sizes level)
create_sparse_vmo-length zero length h = elim (Bool-cases (ltb (2 ^ 64 - page_sizes 0) length)) [
  | inl y ↦ let a : 2 ^ 64 - page_sizes 0 < length = ground (arith, y) in rw y (omega (arith, h, a))
  | inr y ↦ let a : length ≤ 2 ^ 64 - page_sizes 0 = ground (arith, y) in rw y (omega (arith, h, a))
]
create_sparse_vmo-length (suc zero) length h =
    elim (Bool-cases (ltb (2 ^ 64 - page_sizes 1) length)) [
      | inl y ↦
          let a : 2 ^ 64 - page_sizes 1 < length = ground (arith, y) in rw y (omega (arith, h, a))
      | inr y ↦
          let a : length ≤ 2 ^ 64 - page_sizes 1 = ground (arith, y) in rw y (omega (arith, h, a))
    ]
create_sparse_vmo-length (suc (suc l)) length h =
    elim (Bool-cases (ltb (2 ^ 64 - page_sizes 2) length)) [
      | inl y ↦
          let a : 2 ^ 64 - page_sizes 2 < length = ground (arith, y) in rw y (omega (arith, h, a))
      | inr y ↦
          let a : length ≤ 2 ^ 64 - page_sizes 2 = ground (arith, y) in rw y (omega (arith, h, a))
    ]
