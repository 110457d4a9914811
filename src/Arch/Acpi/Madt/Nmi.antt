-- ===== src/Arch/Acpi/Madt/Nmi.antt =====
-- The second loop of `parse_madt` in kernel/arch/common/acpi/acpi.cpp, which tells the cores the vectors
-- of their non-maskable interrupts.
use reaveros.Prelude.{
  ℕ, zero, suc, ◌+◌, ◌≤◌, ◌<◌, ◌≡◌, ◌≢◌, refl, sym, ap, subst, ◌∙◌, ◌⊎◌, inl, inr, List, [], ◌∷◌,
  arith, ◌==◌, ==-refl, ==-false, eq_of_==, ne_of_==, if◌then◌else◌, Bool-cases, ◌||◌,
}
use reaveros.Arch.Acpi.{Memory, read16, read32}
use reaveros.Arch.Acpi.Madt.Entries.{visit_all}
use reaveros.Arch.Acpi.Madt.{
  Core, Detection, set_core, set_nmi, set_all, set_one, assign_nmi, nmi_entry,
}

-- What an entry for the non-maskable interrupt says to a core.
abbrev pub addressed : ℕ → ℕ → ℕ → Core → Core
addressed acpi vector flags c =
    if acpi == 255 || c.acpi_id == acpi then set_nmi vector flags c else c

abbrev pub core_nmi : Memory → ℕ → Core → Core
core_nmi mem a c =
    if mem a == 4
    then addressed (mem (a + 2)) (mem (a + 5)) (read16 mem (a + 3)) c
    else if mem a == 10
    then addressed (read32 mem (a + 4)) (mem (a + 8)) (read16 mem (a + 2)) c
    else c

abbrev pub core_nmis : Memory → List ℕ → Core → Core
core_nmis mem [] c = c
core_nmis mem (a ∷ es) c = core_nmis mem es (core_nmi mem a c)

-- No two of the first cores have the same firmware id.
abbrev pub AllDistinct : ℕ → (ℕ → Core) → Type 0
AllDistinct n cores = (i j : ℕ) → i < n → j < n → (cores i).acpi_id ≡ (cores j).acpi_id → i ≡ j

pub set_core-own : (i j : ℕ) (c : Core) (cores : ℕ → Core) → i ≡ j → set_core i c cores j ≡ c
set_core-own i j c cores e = rw (==-refl i j e) refl

pub set_core-other :
    (i j : ℕ) (c : Core) (cores : ℕ → Core) → i ≢ j → set_core i c cores j ≡ cores j
set_core-other i j c cores n = rw (==-false i j n) refl

set_all-out :
    (vector flags i n : ℕ) (cores : ℕ → Core) (j : ℕ)
    → (j < i) ⊎ (i + n ≤ j)
    → set_all vector flags i n cores j ≡ cores j
unfolding set_all
set_all-out vector flags i zero cores j h = refl
set_all-out vector flags i (suc n) cores j h =
    set_all-out vector flags (suc i) n (set_core i (set_nmi vector flags (cores i)) cores) j
      (ground (arith, h))
    ∙ set_core-other i j (set_nmi vector flags (cores i)) cores (ground (arith, h))

set_all-in :
    (vector flags i n : ℕ) (cores : ℕ → Core) (j : ℕ)
    → i ≤ j
    → j < i + n
    → set_all vector flags i n cores j ≡ set_nmi vector flags (cores j)
unfolding set_all
set_all-in vector flags i zero cores j a b = let x : ⊥ = omega (arith, a, b) in elim x [ ]
set_all-in vector flags i (suc n) cores j a b =
    let next = set_core i (set_nmi vector flags (cores i)) cores in
    elim (Bool-cases (i == j)) [
      | inl y ↦
          let e : i ≡ j = eq_of_== i j y in
          set_all-out vector flags (suc i) n next j (inl (omega (arith, e)))
          ∙ set_core-own i j (set_nmi vector flags (cores i)) cores e
          ∙ ap (λ k. set_nmi vector flags (cores k)) e
      | inr y ↦
          let m : i ≢ j = ne_of_== i j y in
          set_all-in vector flags (suc i) n next j (omega (arith, a, m)) (omega (arith, b))
          ∙ ap (set_nmi vector flags) (set_core-other i j (set_nmi vector flags (cores i)) cores m)
    ]

set_one-miss :
    (acpi vector flags i n : ℕ) (cores : ℕ → Core) (j : ℕ)
    → (j < i) ⊎ ((i + n ≤ j) ⊎ ((cores j).acpi_id ≢ acpi))
    → set_one acpi vector flags i n cores j ≡ cores j
unfolding set_one
set_one-miss acpi vector flags i zero cores j h = refl
set_one-miss acpi vector flags i (suc n) cores j h = elim (Bool-cases ((cores i).acpi_id == acpi)) [
  | inl y ↦
      let e : (cores i).acpi_id ≡ acpi = eq_of_== (cores i).acpi_id acpi y in
      let m : i ≢ j = λ q. elim h [
        | inl b ↦ omega (arith, b, q)
        | inr r ↦ elim r [
          | inl b ↦ omega (arith, b, q)
          | inr b ↦ b (ap (λ k. (cores k).acpi_id) (sym q) ∙ e)
        ]
      ] in
      rw (y, set_one) (set_core-other i j (set_nmi vector flags (cores i)) cores m)
  | inr y ↦
      rw (y, set_one)
        (set_one-miss acpi vector flags (suc i) n cores j (elim h [
          | inl b ↦ inl (omega (arith, b))
          | inr r ↦ inr (elim r [ inl b ↦ inl (omega (arith, b)) | inr b ↦ inr b ])
        ]))
]

set_one-hit :
    (acpi vector flags i n : ℕ) (cores : ℕ → Core) (j : ℕ)
    → i ≤ j
    → j < i + n
    → (cores j).acpi_id ≡ acpi
    → ((k : ℕ) → k < i + n → (cores k).acpi_id ≡ acpi → k ≡ j)
    → set_one acpi vector flags i n cores j ≡ set_nmi vector flags (cores j)
unfolding set_one
set_one-hit acpi vector flags i zero cores j a b e u = let x : ⊥ = omega (arith, a, b) in elim x [ ]
set_one-hit acpi vector flags i (suc n) cores j a b e u =
    elim (Bool-cases ((cores i).acpi_id == acpi)) [
      | inl y ↦
          let q : i ≡ j = u i (omega arith) (eq_of_== (cores i).acpi_id acpi y) in
          rw (y, set_one)
            (set_core-own i j (set_nmi vector flags (cores i)) cores q
              ∙ ap (λ k. set_nmi vector flags (cores k)) q)
      | inr y ↦
          let m : i ≢ j =
            λ q. ne_of_== (cores i).acpi_id acpi y (ap (λ k. (cores k).acpi_id) q ∙ e) in
          rw (y, set_one)
            (set_one-hit acpi vector flags (suc i) n cores j (omega (arith, a, m))
              (omega (arith, b)) e (λ k l. u k (omega (arith, l))))
    ]

-- An entry says to each core what it says to the one, where the ids are distinct.
assign_nmi-addressed :
    (acpi vector flags : ℕ) (d : Detection) (j : ℕ)
    → AllDistinct d.detected d.cores
    → j < d.detected
    → (assign_nmi acpi vector flags d).cores j ≡ addressed acpi vector flags (d.cores j)
assign_nmi-addressed acpi vector flags d j u lt = elim (Bool-cases (acpi == 255)) [
  | inl y ↦ rw y (set_all-in vector flags 0 d.detected d.cores j (omega arith) (omega (arith, lt)))
  | inr y ↦ elim (Bool-cases ((d.cores j).acpi_id == acpi)) [
    | inl z ↦
        let e : (d.cores j).acpi_id ≡ acpi = eq_of_== (d.cores j).acpi_id acpi z in
        rw (y, z)
          (set_one-hit acpi vector flags 0 d.detected d.cores j (omega arith) (omega (arith, lt)) e
            (λ k l q. u k j (omega (arith, l)) lt (q ∙ sym e)))
    | inr z ↦
        rw (y, z)
          (set_one-miss acpi vector flags 0 d.detected d.cores j
            (inr (inr (ne_of_== (d.cores j).acpi_id acpi z))))
  ]
]

-- How an entry, or several, change the detected cores, and nothing else.
pub record IsNoted (f : Core → Core) (d d' : Detection) : Type 0 where
  pub counted : d'.detected ≡ d.detected
  pub based : d'.lapic ≡ d.lapic
  pub within : (j : ℕ) → j < d.detected → d'.cores j ≡ f (d.cores j)
  pub beyond : (j : ℕ) → d.detected ≤ j → d'.cores j ≡ d.cores j

assign_nmi-IsNoted :
    (acpi vector flags : ℕ) (d : Detection)
    → AllDistinct d.detected d.cores
    → IsNoted (addressed acpi vector flags) d (assign_nmi acpi vector flags d)
assign_nmi-IsNoted acpi vector flags d u = record {
  counted = elim (Bool-cases (acpi == 255)) [ inl y ↦ rw y refl | inr y ↦ rw y refl ];
  based = elim (Bool-cases (acpi == 255)) [ inl y ↦ rw y refl | inr y ↦ rw y refl ];
  within = λ j lt. assign_nmi-addressed acpi vector flags d j u lt;
  beyond = λ j le. elim (Bool-cases (acpi == 255)) [
    | inl y ↦ rw y (set_all-out vector flags 0 d.detected d.cores j (inr (omega (arith, le))))
    | inr y ↦
        rw y (set_one-miss acpi vector flags 0 d.detected d.cores j (inr (inl (omega (arith, le)))))
  ];
}

unnoted : (d : Detection) → IsNoted (λ c. c) d d
unnoted d = record { counted = refl; based = refl; within = λ j lt. refl; beyond = λ j le. refl }

IsNoted-same :
    (f g : Core → Core) (d d' : Detection)
    → ((c : Core) → f c ≡ g c)
    → IsNoted f d d'
    → IsNoted g d d'
IsNoted-same f g d d' h n = record {
  counted = n.counted;
  based = n.based;
  within = λ j lt. n.within j lt ∙ h (d.cores j);
  beyond = n.beyond;
}

nmi_entry-IsNoted :
    (mem : Memory) (a : ℕ) (d : Detection)
    → AllDistinct d.detected d.cores
    → IsNoted (core_nmi mem a) d (nmi_entry mem a d)
unfolding nmi_entry
nmi_entry-IsNoted mem a d u = elim (Bool-cases (mem a == 4)) [
  | inl y ↦
      IsNoted-same (addressed (mem (a + 2)) (mem (a + 5)) (read16 mem (a + 3))) (core_nmi mem a) d
        (nmi_entry mem a d) (λ c. rw y refl)
        (rw y (assign_nmi-IsNoted (mem (a + 2)) (mem (a + 5)) (read16 mem (a + 3)) d u))
  | inr y ↦ elim (Bool-cases (mem a == 10)) [
    | inl z ↦
        IsNoted-same (addressed (read32 mem (a + 4)) (mem (a + 8)) (read16 mem (a + 2)))
          (core_nmi mem a) d (nmi_entry mem a d) (λ c. rw (y, z) refl)
          (rw (y, z)
            (assign_nmi-IsNoted (read32 mem (a + 4)) (mem (a + 8)) (read16 mem (a + 2)) d u))
    | inr z ↦
        IsNoted-same (λ c. c) (core_nmi mem a) d (nmi_entry mem a d) (λ c. rw (y, z) refl)
          (rw (y, z) (unnoted d))
  ]
]

-- The ids stay.
addressed-acpi_id :
    (acpi vector flags : ℕ) (c : Core) → (addressed acpi vector flags c).acpi_id ≡ c.acpi_id
addressed-acpi_id acpi vector flags c = elim (Bool-cases (acpi == 255 || c.acpi_id == acpi)) [
  | inl y ↦ rw y refl
  | inr y ↦ rw y refl
]

core_nmi-acpi_id : (mem : Memory) (a : ℕ) (c : Core) → (core_nmi mem a c).acpi_id ≡ c.acpi_id
core_nmi-acpi_id mem a c = elim (Bool-cases (mem a == 4)) [
  | inl y ↦ rw y (addressed-acpi_id (mem (a + 2)) (mem (a + 5)) (read16 mem (a + 3)) c)
  | inr y ↦ elim (Bool-cases (mem a == 10)) [
    | inl z ↦
        rw (y, z) (addressed-acpi_id (read32 mem (a + 4)) (mem (a + 8)) (read16 mem (a + 2)) c)
    | inr z ↦ rw (y, z) refl
  ]
]

AllDistinct-noted :
    (mem : Memory) (a : ℕ) (d d' : Detection)
    → IsNoted (core_nmi mem a) d d'
    → AllDistinct d.detected d.cores
    → AllDistinct d'.detected d'.cores
AllDistinct-noted mem a d d' n u i j a' b q =
    let p = subst (λ k. i < k) (n.counted) a' in
    let r = subst (λ k. j < k) (n.counted) b in
    let id : (k : ℕ) → k < d.detected → (d'.cores k).acpi_id ≡ (d.cores k).acpi_id =
      λ k l. ap (λ (c : Core). c.acpi_id) (n.within k l) ∙ core_nmi-acpi_id mem a (d.cores k) in
    u i j p r (sym (id i p) ∙ q ∙ id j r)

-- The second loop says to each detected core what the entries say to it in their order.
pub nmi_entries-IsNoted :
    (mem : Memory) (es : List ℕ) (d : Detection)
    → AllDistinct d.detected d.cores
    → IsNoted (core_nmis mem es) d (visit_all nmi_entry mem es d)
nmi_entries-IsNoted mem [] d u = unnoted d
nmi_entries-IsNoted mem (a ∷ es) d u =
    let n = nmi_entry-IsNoted mem a d u in
    let m =
      nmi_entries-IsNoted mem es (nmi_entry mem a d)
        (AllDistinct-noted mem a d (nmi_entry mem a d) n u) in
    record {
      counted = m.counted ∙ n.counted;
      based = m.based ∙ n.based;
      within = λ j lt.
          m.within j (subst (λ k. j < k) (sym (n.counted)) lt)
          ∙ ap (core_nmis mem es) (n.within j lt);
      beyond = λ j le. m.beyond j (subst (λ k. k ≤ j) (sym (n.counted)) le) ∙ n.beyond j le;
    }
