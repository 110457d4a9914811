-- ===== src/Elf/Segments.antt =====
-- The loop of `try_parse` in libraries/elf/src/elf.cpp over the program headers.
use reaveros.Prelude.{
  ℕ, zero, suc, ◌+◌, ◌*◌, ◌≤◌, ◌<◌, ◌≡◌, ◌≢◌, ◌⊎◌, refl, sym, ap, subst, ◌∙◌, true, false, Option,
  none, some, arith, ◌==◌, eq_of_==, ne_of_==, Bool-cases, inl, inr,
}
use reaveros.Elf.{found_dynamic, number, is_segment, segment_step, scan_segments}
use reaveros.Elf.Steps.{Accepts, Accepts-bind, Accepts-imp}

-- The types of the program headers are supported, and the DYNAMIC segments among them, behind the one so
-- far, are at most one.
pub record Segments (mem : ℕ → ℕ) (table entry_size i n : ℕ) (before after : Option ℕ)
    : Type 0 where
  pub supported :
      (j : ℕ)
      → i ≤ j
      → j < i + n
      → (is_segment (number mem 4 (table + j * entry_size)) ≡ true)
        ⊎ ((number mem 4 (table + j * entry_size) ≡ 2) × (after ≡ some (table + j * entry_size)))
  pub kept : (d : ℕ) → before ≡ some d → after ≡ some d
  pub found :
      (d : ℕ)
      → after ≡ some d
      → (before ≡ some d)
        ⊎ ((j : ℕ) × (i ≤ j) × (j < i + n) × (d ≡ table + j * entry_size) × (number mem 4 d ≡ 2))
  pub taken :
      (d : ℕ)
      → before ≡ some d
      → (j : ℕ) → i ≤ j
      → j < i + n
      → number mem 4 (table + j * entry_size) ≢ 2
  pub unique :
      (j k : ℕ)
      → i ≤ j
      → j < i + n
      → i ≤ k
      → k < i + n
      → number mem 4 (table + j * entry_size) ≡ 2
      → number mem 4 (table + k * entry_size) ≡ 2
      → j ≡ k

found_dynamic-lem :
    (T : Option ℕ → Type 0) (dynamic : Option ℕ) (at offset t : ℕ)
    → t ≡ 2
    → Accepts
        (λ d. T d ⊎ ((t ≡ 2) × ((dynamic ≡ none) × (d ≡ some at))))
        (found_dynamic dynamic at offset)
found_dynamic-lem T none at offset t e = inr (e, (refl, refl))
found_dynamic-lem T (some d) at offset t e = tt

segment_step-lem :
    (mem : ℕ → ℕ) (at : ℕ) (dynamic : Option ℕ)
    → Accepts
        (λ d.
          ((is_segment (number mem 4 at) ≡ true) × (d ≡ dynamic))
          ⊎ ((number mem 4 at ≡ 2) × ((dynamic ≡ none) × (d ≡ some at))))
        (segment_step mem at dynamic)
unfolding segment_step
segment_step-lem mem at dynamic = elim (Bool-cases (is_segment (number mem 4 at))) [
  | inl y ↦ rw (y, segment_step) (inl (refl, refl))
  | inr y ↦ elim (Bool-cases (number mem 4 at == 2)) [
    | inl z ↦
        rw (y, segment_step)
          (rw (z, segment_step)
            (found_dynamic-lem (λ d. (false ≡ true) × (d ≡ dynamic)) dynamic at _ _
              (eq_of_== (number mem 4 at) 2 z)))
    | inr z ↦ rw (y, segment_step) (rw (z, segment_step) tt)
  ]
]

-- What is told of the segment at a place after the step there.
abbrev Stepped : ℕ → Option ℕ → Option ℕ → ℕ → Type 0
Stepped at before after type =
    ((is_segment type ≡ true) × (after ≡ before))
    ⊎ ((type ≡ 2) × ((before ≡ none) × (after ≡ some at)))

-- A DYNAMIC segment comes where there was none, and is kept.
Stepped-dynamic :
    (at : ℕ) (before after : Option ℕ) (type : ℕ)
    → Stepped at before after type
    → type ≡ 2
    → (before ≡ none) × (after ≡ some at)
Stepped-dynamic at before after type (inl (p, q)) e =
    let x : is_segment 2 ≡ true = subst (λ t. is_segment t ≡ true) e p in
    let y : ⊥ = ground (arith, x) in elim y [ ]
Stepped-dynamic at before after type (inr (p, q)) e = q

-- Behind a step at the first of the headers, there is no DYNAMIC segment but one of the step's.
Segments-taken :
    (mem : ℕ → ℕ) (table entry_size i n : ℕ) (before d after : Option ℕ)
    → Stepped (table + i * entry_size) before d (number mem 4 (table + i * entry_size))
    → Segments mem table entry_size (suc i) n d after
    → (e : ℕ) → before ≡ some e
    → (j : ℕ) → i ≤ j
    → j < i + suc n
    → number mem 4 (table + j * entry_size) ≢ 2
Segments-taken mem table entry_size i n before d after h s e q j a b t =
    elim (Bool-cases (i == j)) [
      | inl y ↦
          let t' =
            subst (λ k. number mem 4 (table + k * entry_size) ≡ 2) (sym (eq_of_== i j y)) t in
          let z = Stepped-dynamic _ before d _ h t' in
          let w : none ≡ some e = sym (z.0) ∙ q in ground (arith, w)
      | inr y ↦ elim h [
        | inl p ↦ s.taken e (p.1 ∙ q) j (omega (arith, a, ne_of_== i j y)) (omega (arith, b)) t
        | inr p ↦ let w : none ≡ some e = sym (p.1.0) ∙ q in ground (arith, w)
      ]
    ]

Segments-unique :
    (mem : ℕ → ℕ) (table entry_size i n : ℕ) (before d after : Option ℕ)
    → Stepped (table + i * entry_size) before d (number mem 4 (table + i * entry_size))
    → Segments mem table entry_size (suc i) n d after
    → (j k : ℕ) → i ≤ j
    → j < i + suc n
    → i ≤ k
    → k < i + suc n
    → number mem 4 (table + j * entry_size) ≡ 2
    → number mem 4 (table + k * entry_size) ≡ 2
    → j ≡ k
Segments-unique mem table entry_size i n before d after h s j k a b a' b' t u =
    let alone : (l : ℕ)
        → i ≢ l
        → i ≤ l
        → l < i + suc n
        → number mem 4 (table + l * entry_size) ≡ 2
        → number mem 4 (table + i * entry_size) ≡ 2
        → ⊥ =
      λ l m c e v w.
        s.taken (table + i * entry_size) (Stepped-dynamic _ before d _ h w).1 l
          (omega (arith, c, m)) (omega (arith, e)) v in
    elim (Bool-cases (i == j)) [
      | inl y ↦
          let p : i ≡ j = eq_of_== i j y in
          elim (Bool-cases (i == k)) [
            | inl z ↦ sym p ∙ eq_of_== i k z
            | inr z ↦
                elim (alone k (ne_of_== i k z) a' b' u
                  (subst (λ l. number mem 4 (table + l * entry_size) ≡ 2) (sym p) t)) [ ]
          ]
      | inr y ↦ elim (Bool-cases (i == k)) [
        | inl z ↦
            elim (alone j (ne_of_== i j y) a b t
              (subst (λ l. number mem 4 (table + l * entry_size) ≡ 2) (sym (eq_of_== i k z)) u)) [ ]
        | inr z ↦
            s.unique j k (omega (arith, a, ne_of_== i j y)) (omega (arith, b))
              (omega (arith, a', ne_of_== i k z)) (omega (arith, b')) t u
      ]
    ]

pub scan_segments-Segments :
    (mem : ℕ → ℕ) (table entry_size i n : ℕ) (dynamic : Option ℕ)
    → Accepts
        (Segments mem table entry_size i n dynamic)
        (scan_segments mem table entry_size i n dynamic)
unfolding scan_segments
scan_segments-Segments mem table entry_size i zero dynamic = record {
  supported = λ j a b. let x : ⊥ = omega (arith, a, b) in elim x [ ];
  kept = λ d e. e;
  found = λ d e. inl e;
  taken = λ d e j a b. let x : ⊥ = omega (arith, a, b) in elim x [ ];
  unique = λ j k a b c d e f. omega (arith, a, b);
}
scan_segments-Segments mem table entry_size i (suc n) dynamic =
    Accepts-bind _ (Segments mem table entry_size i (suc n) dynamic)
      (segment_step mem (table + i * entry_size) dynamic) _
      (segment_step-lem mem (table + i * entry_size) dynamic)
      (λ d h.
        Accepts-imp (Segments mem table entry_size (suc i) n d)
          (Segments mem table entry_size i (suc n) dynamic)
          (scan_segments mem table entry_size (suc i) n d)
          (λ after s. record {
            supported = λ j a b. elim (Bool-cases (i == j)) [
              | inl y ↦
                  subst
                    (λ k.
                      (is_segment (number mem 4 (table + k * entry_size)) ≡ true)
                      ⊎ ((number mem 4 (table + k * entry_size) ≡ 2)
                          × (after ≡ some (table + k * entry_size))))
                    (eq_of_== i j y)
                    (elim h [
                      | inl q ↦ inl (q.0)
                      | inr q ↦ inr (q.0, s.kept (table + i * entry_size) (q.1.1))
                    ])
              | inr y ↦ s.supported j (omega (arith, a, ne_of_== i j y)) (omega (arith, b))
            ];
            taken = Segments-taken mem table entry_size i n dynamic d after h s;
            unique = Segments-unique mem table entry_size i n dynamic d after h s;
            kept = λ e q. elim h [
              | inl p ↦ s.kept e (p.1 ∙ q)
              | inr p ↦ let x : ⊥ = ground (arith, p.1.0, q) in elim x [ ]
            ];
            found = λ e q. elim (s.found e q) [
              | inl p ↦ elim h [
                | inl w ↦ inl (sym (w.1) ∙ p)
                | inr w ↦
                    let same : table + i * entry_size ≡ e = ground (arith, w.1.1, p) in
                    inr (i, omega arith, omega arith, sym same, ap (number mem 4) (sym same) ∙ w.0)
              ]
              | inr p ↦ inr (p.0, omega (arith, p.1), omega (arith, p.2), p.3, p.4)
            ];
          })
          (scan_segments-Segments mem table entry_size (suc i) n d))
