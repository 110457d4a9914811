-- ===== src/Scheduler/Aggregate/Choice.antt =====
-- The child that `aggregate::schedule` of kernel/scheduler/types.cpp chooses.
use reaveros.Prelude.{
  ℕ, suc, ◌+◌, ◌-◌, ◌^◌, ◌≤◌, ◌<◌, ◌≡◌, ◌⊎◌, refl, ap, ◌∙◌, Bool-cases, Option, none, some, List,
  [], ◌∷◌, ◌++◌, All, ltb, true, false, arith, inl, inr, length,
}
use reaveros.Prelude.Outcome.{Outcome, done, panic, fault, spin, ◌>>=◌}
use reaveros.Scheduler.Instance.{Runnable}
use reaveros.Scheduler.Aggregate.{find_lowest, schedule_at, schedule}

module _ {ℓ} {S : Type ℓ} (load : S → Outcome ℕ) (schedule_on : Runnable → S → Outcome S)
    (value : S → ℕ) where
  -- The child stands in the list behind children with greater loads, and before those whose loads
  -- are not less.
  pub record IsLowest (cs before : List S) (c : S) (after : List S) : Type ℓ where
    pub split : cs ≡ before ++ (c ∷ after)
    pub earlier : All (λ d. value c < value d) before
    pub later : All (λ d. value c ≤ value d) after

  -- The loads are known and lie below the start value of the search.
  abbrev pub AreLoaded : List S → Type 0
  AreLoaded cs = All (λ c. (load c ≡ done (value c)) × (value c < 2 ^ 64 - 1)) cs

  -- What the search comes to.
  abbrev Found : ℕ → List S → Option ℕ → ℕ → Type ℓ
  Found i cs lowest al =
      (All (λ d. al ≤ value d) cs × (find_lowest load schedule_on i cs lowest al ≡ done lowest))
      ⊎ ((before : List S) × (c : S) × (after : List S) × IsLowest cs before c after
          × (value c < al)
          × (find_lowest load schedule_on i cs lowest al ≡ done (some (i + length before))))

  find_less :
      (i : ℕ) (c : S) (cs : List S) (lowest : Option ℕ) (al : ℕ)
      → load c ≡ done (value c)
      → ltb (value c) al ≡ true
      → find_lowest load schedule_on i (c ∷ cs) lowest al
        ≡ find_lowest load schedule_on (suc i) cs (some i) (value c)
  unfolding find_lowest
  find_less i c cs lowest al q y = rw (q, find_lowest) (rw (y, find_lowest) refl)

  find_not_less :
      (i : ℕ) (c : S) (cs : List S) (lowest : Option ℕ) (al : ℕ)
      → load c ≡ done (value c)
      → ltb (value c) al ≡ false
      → find_lowest load schedule_on i (c ∷ cs) lowest al
        ≡ find_lowest load schedule_on (suc i) cs lowest al
  unfolding find_lowest
  find_not_less i c cs lowest al q m = rw (q, find_lowest) (rw (m, find_lowest) refl)

  find_lowest-Found :
      (i : ℕ) (cs : List S) (lowest : Option ℕ) (al : ℕ) → AreLoaded cs → Found i cs lowest al
  unfolding find_lowest
  find_lowest-Found i [] lowest al h = inl (tt, refl)
  find_lowest-Found i (c ∷ cs) lowest al h = elim (Bool-cases (ltb (value c) al)) [
    | inl y ↦ elim (find_lowest-Found (suc i) cs (some i) (value c) (h.1)) [
      | inl (all, q) ↦ inr (
        [],
        c,
        cs,
        record { split = refl; earlier = tt; later = all },
        ground (arith, y),
        find_less i c cs lowest al (h.0.0) y
            ∙ q
            ∙ ap (λ j. done (some j)) {x = i} {y = i + length {A = S} []} (omega arith),
      )
      | inr (before, d, after, l, lt, q) ↦ inr (
        c ∷ before,
        d,
        after,
        record { split = ap (λ xs. c ∷ xs) l.split; earlier = (lt, l.earlier); later = l.later },
        ground (arith, y, lt),
        find_less i c cs lowest al (h.0.0) y
            ∙ q
            ∙ ap (λ j. done (some j)) {x = suc i + length before} {y = i + suc (length before)}
                (omega arith),
      )
    ]
    | inr m ↦ elim (find_lowest-Found (suc i) cs lowest al (h.1)) [
      | inl (all, q) ↦ inl ((ground (arith, m), all), find_not_less i c cs lowest al (h.0.0) m ∙ q)
      | inr (before, d, after, l, lt, q) ↦ inr (
        c ∷ before,
        d,
        after,
        record {
          split = ap (λ xs. c ∷ xs) l.split;
          earlier = (ground (arith, m, lt), l.earlier);
          later = l.later;
        },
        lt,
        find_not_less i c cs lowest al (h.0.0) m
            ∙ q
            ∙ ap (λ j. done (some j)) {x = suc i + length before} {y = i + suc (length before)}
                (omega arith),
      )
    ]
  ]

  schedule_at_place :
      (before : List S) (t : Runnable) (c : S) (after : List S)
      → schedule_at load schedule_on (length before) t (before ++ (c ∷ after))
        ≡ (schedule_on t c >>= λ c'. done (before ++ (c' ∷ after)))
  unfolding schedule_at
  schedule_at_place [] t c after = refl
  schedule_at_place (b ∷ before) t c after =
      ap (λ m. m >>= λ cs'. done (b ∷ cs')) (schedule_at_place before t c after)
      ∙ assoc (schedule_on t c)
    where
      assoc :
          (m : Outcome S)
          → (m >>= (λ c'. done (before ++ (c' ∷ after))) >>= λ cs'. done (b ∷ cs'))
            ≡ (m >>= λ c'. done (b ∷ (before ++ (c' ∷ after))))
      assoc (done c') = refl
      assoc panic = refl
      assoc fault = refl
      assoc spin = refl

  -- Where every child has a load, and it is below 2^64 - 1, `schedule` panics exactly if there are no
  -- children; else it hands the thread to the first of the children with the least load, and leaves
  -- all the others as they are.
  pub schedule-IsLowest :
      (t : Runnable) (cs : List S)
      → AreLoaded cs
      → ((cs ≡ []) × (schedule load schedule_on t cs ≡ panic))
        ⊎ ((before : List S) × (c : S) × (after : List S) × IsLowest cs before c after
            × (schedule load schedule_on t cs
                ≡ (schedule_on t c >>= λ c'. done (before ++ (c' ∷ after)))))
  unfolding schedule
  schedule-IsLowest t cs h = elim (find_lowest-Found 0 cs none (2 ^ 64 - 1) h) [
    | inl (all, q) ↦ inl (no_children cs h all, rw (q, schedule) refl)
    | inr (before, c, after, l, lt, q) ↦ inr (
      before,
      c,
      after,
      l,
      rw (q, schedule)
          (ap (λ xs. schedule_at load schedule_on (0 + length before) t xs) l.split
            ∙ ap (λ k. schedule_at load schedule_on k t (before ++ (c ∷ after)))
                {x = 0 + length before} {y = length before} (omega arith)
            ∙ schedule_at_place before t c after),
    )
  ]
    where
      no_children : (cs : List S) → AreLoaded cs → All (λ d. 2 ^ 64 - 1 ≤ value d) cs → cs ≡ []
      no_children [] h all = refl
      no_children (c ∷ cs) h all = absurd (omega (arith, h.0.1, all.0))
