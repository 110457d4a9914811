-- ===== src/Memory/Vas/Pages.antt =====
-- The pages of a committed object in the tables of an address space: the loop of `map_vmo` in
-- kernel/memory/vas.cpp over the elements of a sparse object with pages of the smallest size.
use reaveros.Prelude.{
  ℕ, zero, suc, ◌+◌, ◌-◌, ◌*◌, ◌/◌, ◌%◌, ◌^◌, ◌≤◌, ◌<◌, ◌≡◌, sym, ap, subst, ◌∙◌, inl, inr, Bool,
  Option, some, List, [], ◌∷◌, arith, length, get_elem?, All, Bool-cases, ltb, leb, ◌&&◌,
}
use reaveros.Prelude.Outcome.{Yields, Yields-bind, Yields-imp}
use reaveros.Arch.PageTable.{Table, map_physical, virt_to_phys}
use reaveros.Arch.PageTable.Steps.{Meets, Covers}
use reaveros.Arch.PageTable.Change.{IsChanged, IsChanged-empty, changed_in, changed_out}
use reaveros.Arch.PageTable.Mapping.{IsMapped, IsUnmapped, mapped_to}
use reaveros.Arch.PageTable.Sound.{map_physical-IsMapped, page_end}
use reaveros.Memory.Vmo.Commit.{backed}
use reaveros.Memory.Vas.{map_elements}

-- A frame that a page table can hold.
abbrev pub IsFrame : ℕ → Type 0
IsFrame frame = (frame % 4096 ≡ 0) × (frame + 4096 ≤ 2 ^ 52)

-- The frame of the page of an address, of the pages from the start on.
abbrev pub frame_at : ℕ → List ℕ → ℕ → Option ℕ
frame_at start frames x = get_elem? frames ((x - start) / 4096)

Meets-page : (start phys k : ℕ) → start % 4096 ≡ 0 → k ≤ 3 → Meets k start (start + 4096) phys
Meets-page start phys zero a h = inl (omega arith)
Meets-page start phys (suc zero) a h = inl (omega arith)
Meets-page start phys (suc (suc zero)) a h = inl (omega arith)
Meets-page start phys (suc (suc (suc k))) a h = inl (omega arith)

map_page :
    (start frame : ℕ) (user : Bool) (t : Table)
    → start % 4096 ≡ 0
    → start + 8191 < 2 ^ 64
    → IsFrame frame
    → IsUnmapped 3 start (start + 4096) t
    → Yields
        (IsMapped 3 start start (start + 4096) frame t)
        (map_physical start (start + 4096) frame user t)
map_page start frame user t a b f un =
    let e : page_end (start + 4096) ≡ start + 4096 = omega arith in
    subst
      (λ n.
        Yields (IsMapped 3 start start n frame t) (map_physical start (start + 4096) frame user t))
      e
      (map_physical-IsMapped start (start + 4096) frame user t a (f.0) (omega arith) (omega arith)
        (omega arith) (omega (arith, f.1)) (λ k h. Meets-page start frame k a h)
        (subst (λ n. IsUnmapped 3 start n t) (sym e) un))

frame_at-first :
    (start frame x : ℕ) (fs : List ℕ)
    → start % 4096 ≡ 0
    → start ≤ x
    → x < start + 4096
    → mapped_to start frame x ≡ frame_at start (frame ∷ fs) x
frame_at-first start frame x fs a b c =
    ap some {x = frame + (x / 4096 * 4096 - start)} {y = frame} (omega arith)
    ∙ ap (λ i. get_elem? (frame ∷ fs) i) {x = 0} {y = (x - start) / 4096} (omega arith)

frame_at-rest :
    (start frame x : ℕ) (fs : List ℕ)
    → start + 4096 ≤ x
    → frame_at (start + 4096) fs x ≡ frame_at start (frame ∷ fs) x
frame_at-rest start frame x fs a =
    ap (λ i. get_elem? (frame ∷ fs) i) {x = suc ((x - (start + 4096)) / 4096)}
      {y = (x - start) / 4096} (omega arith)

-- The first page, and the others.
IsChanged-page :
    (o start end frame : ℕ) (fs : List ℕ) (t u w : Table)
    → start % 4096 ≡ 0
    → start + 4096 ≤ end
    → Covers 3 o start
    → IsMapped 3 start start (start + 4096) frame t u
    → IsChanged 3 o (start + 4096) end (frame_at (start + 4096) fs) u w
    → IsChanged 3 o start end (frame_at start (frame ∷ fs)) t w
IsChanged-page o start end frame fs t u w a le cov first rest x c =
    let new = frame_at start (frame ∷ fs) in
    let old = virt_to_phys 3 t x in
    let here = first x (c ∙ sym cov) in
    let later = rest x c in
    elim (Bool-cases (leb start x && ltb x (start + 4096))) [
      | inl y ↦
          let p : start ≤ x = ground (arith, y) in
          let q : x < start + 4096 = ground (arith, y) in
          later
          ∙ changed_out (start + 4096) end (frame_at (start + 4096) fs) x (virt_to_phys 3 u x)
              (λ b d. omega (arith, b, q))
          ∙ here
          ∙ changed_in start (start + 4096) (mapped_to start frame) x old p q
          ∙ frame_at-first start frame x fs a p q
          ∙ sym (changed_in start end new x old p (omega (arith, q, le)))
      | inr y ↦
          let n : start ≤ x → x < start + 4096 → ⊥ = λ p q. ground (arith, y, p, q) in
          let same = here ∙ changed_out start (start + 4096) (mapped_to start frame) x old n in
          elim (Bool-cases (leb (start + 4096) x && ltb x end)) [
            | inl z ↦
                let p : start + 4096 ≤ x = ground (arith, z) in
                let q : x < end = ground (arith, z) in
                later
                ∙ changed_in (start + 4096) end (frame_at (start + 4096) fs) x (virt_to_phys 3 u x)
                    p q
                ∙ frame_at-rest start frame x fs p
                ∙ sym (changed_in start end new x old (omega (arith, p)) q)
            | inr z ↦
                let m : start ≤ x → x < end → ⊥ = λ p q. ground (arith, y, z, p, q) in
                later
                ∙ changed_out (start + 4096) end (frame_at (start + 4096) fs) x (virt_to_phys 3 u x)
                    (λ p q. m (omega (arith, p)) q)
                ∙ same
                ∙ sym (changed_out start end new x old m)
          ]
    ]

-- The loop maps each page to its frame, and changes the translation of no other address.
pub map_elements_lem :
    (fs : List ℕ) (o base offset start end : ℕ) (user : Bool) (t : Table)
    → start ≡ base + offset
    → end ≡ start + length fs * 4096
    → start % 4096 ≡ 0
    → end + 4095 < 2 ^ 64
    → ((x : ℕ) → start ≤ x → x < end → Covers 3 o x)
    → All IsFrame fs
    → IsUnmapped 3 start end t
    → Yields
        (IsChanged 3 o start end (frame_at start fs) t)
        (map_elements 4096 base user (backed 4096 offset fs) t)
unfolding map_elements backed
map_elements_lem [] o base offset start end user t e q a top cov f un =
    IsChanged-empty 3 o start end (frame_at start []) t (ground (arith, q))
map_elements_lem (frame ∷ fs) o base offset start end user t e q a top cov f un =
    let v : (base + offset) % 2 ^ 64 ≡ start = omega (arith, e, q, top) in
    let w : (base + offset + 4096) % 2 ^ 64 ≡ start + 4096 = omega (arith, e, q, top) in
    let here : Covers 3 o start = cov start (omega arith) (omega (arith, q)) in
    rw (v, w)
      (Yields-bind (IsMapped 3 start start (start + 4096) frame t)
        (IsChanged 3 o start end (frame_at start (frame ∷ fs)) t)
        (map_physical start (start + 4096) frame user t)
        (λ u. map_elements 4096 base user (backed 4096 (offset + 4096) fs) u)
        (map_page start frame user t a (omega (arith, q, top)) f.0
          (λ x b c. un x b (omega (arith, q, c))))
        (λ u m.
          Yields-imp (IsChanged 3 o (start + 4096) end (frame_at (start + 4096) fs) u)
            (IsChanged 3 o start end (frame_at start (frame ∷ fs)) t)
            (map_elements 4096 base user (backed 4096 (offset + 4096) fs) u)
            (λ w k. IsChanged-page o start end frame fs t u w a (omega (arith, q)) here m k)
            (map_elements_lem fs o base (offset + 4096) (start + 4096) end user u (omega (arith, e))
              (omega (arith, q)) (omega (arith, a)) top (λ x b c. cov x (omega (arith, b)) c) f.1
              (λ x b c.
                m x (cov x (omega (arith, b)) c ∙ sym here)
                ∙ changed_out start (start + 4096) (mapped_to start frame) x (virt_to_phys 3 t x)
                    (λ p r. omega (arith, b, r))
                ∙ un x (omega (arith, b)) c))))
