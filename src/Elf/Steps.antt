-- ===== src/Elf/Steps.antt =====
-- The loops of `try_parse` in libraries/elf/src/elf.cpp.
use reaveros.Prelude.{
  ℕ, zero, suc, ◌+◌, ◌*◌, ◌%◌, ◌^◌, ◌≤◌, ◌<◌, ◌≡◌, ◌⊎◌, refl, subst, Bool, true, false, Option,
  none, some, arith, ◌==◌, ltb, not, eq_of_==, ne_of_==, Bool-cases, inl, inr,
}
use reaveros.Elf.{
  Reason, section_beyond, found_dynamic, Verdict, accepted, refused, unending, ◌>>=◌, check, number,
  is_segment, segment_step, scan_segments, is_section, section_step, scan_sections,
}

-- If the verdict accepts, the value satisfies the predicate.
abbrev pub Accepts {ℓ κ} : {A : Type ℓ} → (A → Type κ) → Verdict A → Type κ
Accepts P (accepted a) = P a
Accepts P (refused r n) = Unit
Accepts P unending = Unit

pub Accepts-bind {ℓ κ μ ν} :
    {A : Type ℓ} {B : Type κ} (P : A → Type μ) (Q : B → Type ν) (v : Verdict A) (f : A → Verdict B)
    → Accepts P v
    → ((a : A) → P a → Accepts Q (f a))
    → Accepts Q (v >>= f)
Accepts-bind P Q (accepted a) f h k = k a h
Accepts-bind P Q (refused r n) f h k = tt
Accepts-bind P Q unending f h k = tt

pub Accepts-imp {ℓ κ μ} :
    {A : Type ℓ} (P : A → Type κ) (Q : A → Type μ) (v : Verdict A)
    → ((a : A) → P a → Q a)
    → Accepts P v
    → Accepts Q v
Accepts-imp P Q (accepted a) f h = f a h
Accepts-imp P Q (refused r n) f h = tt
Accepts-imp P Q unending f h = tt

pub Accepts-check : (b : Bool) (r : Reason) (n : ℕ) → Accepts (λ _. b ≡ true) (check b r n)
Accepts-check true r n = refl
Accepts-check false r n = tt

-- A section of a supported type that ends, as words are added, within the image.
abbrev pub IsInside : (ℕ → ℕ) → ℕ → ℕ → Type 0
IsInside mem length at =
    ((number mem 8 (at + 24) + number mem 8 (at + 32)) % 2 ^ 64 ≤ length)
    × ((is_section (number mem 4 (at + 4)) ≡ true) ⊎ (number mem 4 (at + 4) ≡ 11))

section_step-IsInside :
    (mem : ℕ → ℕ) (base length : ℕ) (symtab : Option ℕ) (at size : ℕ)
    → Accepts (λ _. IsInside mem length at) (section_step mem base length symtab at size)
unfolding section_step
section_step-IsInside mem base length symtab at size =
    let end : ℕ = (number mem 8 (at + 24) + number mem 8 (at + 32)) % 2 ^ 64 in
    Accepts-bind (λ _. not (ltb length end) ≡ true) (λ _. IsInside mem length at)
      (check (not (ltb length end)) section_beyond (number mem 8 (at + 24))) _
      (Accepts-check (not (ltb length end)) section_beyond (number mem 8 (at + 24)))
      (λ u h.
        let within : end ≤ length = ground (arith, h) in
        elim (Bool-cases (is_section (number mem 4 (at + 4)))) [
          | inl y ↦ rw y (within, inl refl)
          | inr y ↦ elim (Bool-cases (number mem 4 (at + 4) == 5)) [
            | inl z ↦ rw (y, z) tt
            | inr z ↦ elim (Bool-cases (number mem 4 (at + 4) == 11)) [
              | inl w ↦ rw (y, z, w) (within, inr (eq_of_== (number mem 4 (at + 4)) 11 w))
              | inr w ↦ rw (y, z, w) tt
            ]
          ]
        ])

-- The loop accepts only sections that are inside.
pub scan_sections-IsInside :
    (mem : ℕ → ℕ) (base length : ℕ) (symtab : Option ℕ) (table entry_size i n size : ℕ)
    → Accepts
        (λ _. (j : ℕ) → i ≤ j → j < i + n → IsInside mem length (table + j * entry_size))
        (scan_sections mem base length symtab table entry_size i n size)
unfolding scan_sections
scan_sections-IsInside mem base length symtab table entry_size i zero size =
    λ j a b. let x : ⊥ = omega (arith, a, b) in elim x [ ]
scan_sections-IsInside mem base length symtab table entry_size i (suc n) size =
    Accepts-bind (λ _. IsInside mem length (table + i * entry_size))
      (λ _. (j : ℕ) → i ≤ j → j < i + suc n → IsInside mem length (table + j * entry_size))
      (section_step mem base length symtab (table + i * entry_size) size) _
      (section_step-IsInside mem base length symtab (table + i * entry_size) size)
      (λ s h.
        Accepts-imp
          (λ _. (j : ℕ) → suc i ≤ j → j < suc i + n → IsInside mem length (table + j * entry_size))
          _ (scan_sections mem base length symtab table entry_size (suc i) n s)
          (λ t k j a b. elim (Bool-cases (i == j)) [
            | inl y ↦ subst (λ k. IsInside mem length (table + k * entry_size)) (eq_of_== i j y) h
            | inr y ↦ k j (omega (arith, a, ne_of_== i j y)) (omega (arith, b))
          ])
          (scan_sections-IsInside mem base length symtab table entry_size (suc i) n s))

-- The verdict is one.
abbrev pub Ends {ℓ} : {A : Type ℓ} → Verdict A → Type 0
Ends (accepted a) = Unit
Ends (refused r n) = Unit
Ends unending = ⊥

pub Ends-bind {ℓ κ} :
    {A : Type ℓ} {B : Type κ} (v : Verdict A) (f : A → Verdict B)
    → Ends v
    → ((a : A) → Ends (f a))
    → Ends (v >>= f)
Ends-bind (accepted a) f h k = k a
Ends-bind (refused r n) f h k = tt
Ends-bind unending f h k = h

pub Ends-check : (b : Bool) (r : Reason) (n : ℕ) → Ends (check b r n)
Ends-check true r n = tt
Ends-check false r n = tt

Ends-found : (dynamic : Option ℕ) (at offset : ℕ) → Ends (found_dynamic dynamic at offset)
Ends-found none at offset = tt
Ends-found (some d) at offset = tt

pub scan_segments-Ends :
    (mem : ℕ → ℕ) (table entry_size i n : ℕ) (dynamic : Option ℕ)
    → Ends (scan_segments mem table entry_size i n dynamic)
unfolding scan_segments segment_step
scan_segments-Ends mem table entry_size i zero dynamic = tt
scan_segments-Ends mem table entry_size i (suc n) dynamic =
    Ends-bind (segment_step mem (table + i * entry_size) dynamic) _
      (elim (Bool-cases (is_segment (number mem 4 (table + i * entry_size)))) [
        | inl y ↦ rw (y, segment_step) tt
        | inr y ↦ elim (Bool-cases (number mem 4 (table + i * entry_size) == 2)) [
          | inl z ↦
              rw (y, segment_step)
                (rw (z, segment_step) (Ends-found dynamic (table + i * entry_size) _))
          | inr z ↦ rw (y, segment_step) (rw (z, segment_step) tt)
        ]
      ])
      (λ d. scan_segments-Ends mem table entry_size (suc i) n d)

pub scan_sections-Ends :
    (mem : ℕ → ℕ) (base length : ℕ) (symtab : Option ℕ) (table entry_size i n size : ℕ)
    → Ends (scan_sections mem base length symtab table entry_size i n size)
unfolding scan_sections section_step
scan_sections-Ends mem base length symtab table entry_size i zero size = tt
scan_sections-Ends mem base length symtab table entry_size i (suc n) size =
    let at : ℕ = table + i * entry_size in
    let end : ℕ = (number mem 8 (at + 24) + number mem 8 (at + 32)) % 2 ^ 64 in
    Ends-bind (section_step mem base length symtab at size) _
      (Ends-bind (check (not (ltb length end)) section_beyond (number mem 8 (at + 24))) _
        (Ends-check (not (ltb length end)) section_beyond (number mem 8 (at + 24)))
        (λ u. elim (Bool-cases (is_section (number mem 4 (at + 4)))) [
          | inl y ↦ rw y tt
          | inr y ↦ elim (Bool-cases (number mem 4 (at + 4) == 5)) [
            | inl z ↦ rw (y, z) tt
            | inr z ↦ elim (Bool-cases (number mem 4 (at + 4) == 11)) [
              | inl w ↦ rw (y, z, w) tt
              | inr w ↦ rw (y, z, w) tt
            ]
          ]
        ]))
      (λ s. scan_sections-Ends mem base length symtab table entry_size (suc i) n s)
