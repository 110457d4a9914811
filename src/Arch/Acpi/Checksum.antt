-- ===== src/Arch/Acpi/Checksum.antt =====
-- The checks of the tables of kernel/arch/common/acpi/acpi.cpp.
use reaveros.Prelude.{
  ℕ, zero, suc, ◌+◌, ◌%◌, ◌≤◌, ◌<◌, ◌≡◌, ◌≢◌, ◌⊎◌, refl, sym, ap, subst, ◌∙◌, true, false, Option,
  none, some, List, arith, ◌==◌, ==-refl, ==-false, eq_of_==, ne_of_==, if◌then◌else◌, Bool-cases,
  inl, inr,
}
use reaveros.Arch.Acpi.{
  Memory, read32, has_signature, sum_bytes, validate, Root, table_pointer, table_count,
  find_table_from, find_table,
}

-- One byte of the memory is another one.
abbrev pub with_byte : ℕ → ℕ → Memory → Memory
with_byte i v mem a = if i == a then v else mem a

with_byte-other : (i v : ℕ) (mem : Memory) (a : ℕ) → i ≢ a → with_byte i v mem a ≡ mem a
with_byte-other i v mem a n = rw (==-false i a n) refl

with_byte-own : (i v : ℕ) (mem : Memory) (a : ℕ) → i ≡ a → with_byte i v mem a ≡ v
with_byte-own i v mem a e = rw (==-refl i a e) refl

sum_bytes-out :
    (i v : ℕ) (mem : Memory) (a n sum : ℕ)
    → (i < a) ⊎ (a + n ≤ i)
    → sum_bytes (with_byte i v mem) a n sum ≡ sum_bytes mem a n sum
unfolding sum_bytes
sum_bytes-out i v mem a zero sum h = refl
sum_bytes-out i v mem a (suc n) sum h =
    ap (λ b. sum_bytes (with_byte i v mem) (a + 1) n ((sum + b) % 256))
      (with_byte-other i v mem a (ground (arith, h)))
    ∙ sum_bytes-out i v mem (a + 1) n ((sum + mem a) % 256) (ground (arith, h))

-- Two sums that differ stay apart.
sum_bytes-apart :
    (mem : Memory) (a n s t : ℕ)
    → s < 256
    → t < 256
    → sum_bytes mem a n s ≡ sum_bytes mem a n t
    → s ≡ t
unfolding sum_bytes
sum_bytes-apart mem a zero s t p q e = e
sum_bytes-apart mem a (suc n) s t p q e =
    let h =
      sum_bytes-apart mem (a + 1) n ((s + mem a) % 256) ((t + mem a) % 256) (omega arith)
        (omega arith) e in
    omega (arith, h, p, q)

sum_bytes-changed :
    (i v : ℕ) (mem : Memory) (a n sum : ℕ)
    → a ≤ i
    → i < a + n
    → v < 256
    → mem i < 256
    → sum < 256
    → sum_bytes (with_byte i v mem) a n sum ≡ sum_bytes mem a n sum
    → v ≡ mem i
unfolding sum_bytes
sum_bytes-changed i v mem a zero sum p q b c s e = let x : ⊥ = omega (arith, p, q) in elim x [ ]
sum_bytes-changed i v mem a (suc n) sum p q b c s e = elim (Bool-cases (i == a)) [
  | inl y ↦
      let own : i ≡ a = eq_of_== i a y in
      let h : (sum + v) % 256 ≡ (sum + mem a) % 256 =
        sum_bytes-apart mem (a + 1) n ((sum + v) % 256) ((sum + mem a) % 256) (omega arith)
          (omega arith)
          (sym (sum_bytes-out i v mem (a + 1) n ((sum + v) % 256) (inl (omega (arith, own))))
            ∙ ap (λ w. sum_bytes (with_byte i v mem) (a + 1) n ((sum + w) % 256))
                (sym (with_byte-own i v mem a own))
            ∙ e) in
      let m : mem i ≡ mem a = ap mem own in omega (arith, h, m, b, c, s)
  | inr y ↦
      let n' : i ≢ a = ne_of_== i a y in
      sum_bytes-changed i v mem (a + 1) n ((sum + mem a) % 256) (omega (arith, p, n'))
        (omega (arith, q)) b c (omega arith)
        (ap (λ w. sum_bytes (with_byte i v mem) (a + 1) n ((sum + w) % 256))
            (sym (with_byte-other i v mem a n'))
          ∙ e)
]

-- The loop over the bytes says that they do not sum up, once one of them is another one.
sum_bytes-false :
    (i v : ℕ) (mem : Memory) (a n : ℕ)
    → a ≤ i
    → i < a + n
    → v < 256
    → mem i < 256
    → v ≢ mem i
    → sum_bytes mem a n 0 ≡ 0
    → (sum_bytes (with_byte i v mem) a n 0 == 0) ≡ false
sum_bytes-false i v mem a n p q b c m e =
    ==-false (sum_bytes (with_byte i v mem) a n 0) 0
      (λ h. m (sum_bytes-changed i v mem a n 0 p q b c (omega arith) (h ∙ sym e)))

length_kept :
    (i v : ℕ) (mem : Memory) (a : ℕ)
    → (i < a + 4) ⊎ (a + 8 ≤ i)
    → read32 (with_byte i v mem) (a + 4) ≡ read32 mem (a + 4)
length_kept i v mem a h =
    rw
      (
        with_byte-other i v mem (a + 4) (ground (arith, h)),
        with_byte-other i v mem (a + 4 + 1) (ground (arith, h)),
        with_byte-other i v mem (a + 4 + 2) (ground (arith, h)),
        with_byte-other i v mem (a + 4 + 2 + 1) (ground (arith, h)),
      )
      refl

validate-sum :
    (mem : Memory) (a : ℕ) (signature : List ℕ)
    → validate mem a signature ≡ true
    → sum_bytes mem a (read32 mem (a + 4)) 0 ≡ 0
unfolding validate
validate-sum mem a signature = elim (Bool-cases (has_signature mem a signature)) [
  | inl y ↦ rw y (λ e. eq_of_== (sum_bytes mem a (read32 mem (a + 4)) 0) 0 e)
  | inr y ↦ rw y (λ e. let x : ⊥ = ground (arith, e) in elim x [ ])
]

-- A table that is valid is so no more once one of its bytes, other than the four bytes of its length,
-- is another one. The length says how many bytes are summed up, and a change of it is not excluded.
pub validate_changed :
    (i v : ℕ) (mem : Memory) (a : ℕ) (signature : List ℕ)
    → validate mem a signature ≡ true
    → a ≤ i
    → i < a + read32 mem (a + 4)
    → (i < a + 4) ⊎ (a + 8 ≤ i)
    → v < 256
    → mem i < 256
    → v ≢ mem i
    → validate (with_byte i v mem) a signature ≡ false
unfolding validate
validate_changed i v mem a signature e p q h b c m =
    elim (Bool-cases (has_signature (with_byte i v mem) a signature)) [
      | inr y ↦ rw y refl
      | inl y ↦ rw y (
          subst (λ n. (sum_bytes (with_byte i v mem) a n 0 == 0) ≡ false)
            (sym (length_kept i v mem a h))
            (sum_bytes-false i v mem a (read32 mem (a + 4)) p q b c m
              (validate-sum mem a signature e)))
    ]

-- The table of the name that stands first: no one before it is valid.
abbrev pub IsFirst : Memory → Root → List ℕ → ℕ → ℕ → Option ℕ → Type 0
IsFirst mem root signature i n none =
    (j : ℕ) → i ≤ j → j < i + n → validate mem (table_pointer mem root j) signature ≡ false
IsFirst mem root signature i n (some p) =
    (k : ℕ) × (i ≤ k)
    × (k < i + n)
    × (p ≡ table_pointer mem root k)
    × (validate mem p signature ≡ true)
    × ((j : ℕ) → i ≤ j → j < k → validate mem (table_pointer mem root j) signature ≡ false)

IsFirst-later :
    (mem : Memory) (root : Root) (signature : List ℕ) (i n : ℕ) (o : Option ℕ)
    → validate mem (table_pointer mem root i) signature ≡ false
    → IsFirst mem root signature (suc i) n o
    → IsFirst mem root signature i (suc n) o
IsFirst-later mem root signature i n none e h = λ j a b. elim (Bool-cases (i == j)) [
  | inl y ↦
      subst (λ k. validate mem (table_pointer mem root k) signature ≡ false) (eq_of_== i j y) e
  | inr y ↦ h j (omega (arith, a, ne_of_== i j y)) (omega (arith, b))
]
IsFirst-later mem root signature i n (some p) e (k, a, b, q, v, h) = (
  k,
  omega (arith, a),
  omega (arith, b),
  q,
  v,
  λ j c d. elim (Bool-cases (i == j)) [
    | inl y ↦
        subst (λ k. validate mem (table_pointer mem root k) signature ≡ false) (eq_of_== i j y) e
    | inr y ↦ h j (omega (arith, c, ne_of_== i j y)) d
  ],
)

find_table_from-IsFirst :
    (mem : Memory) (root : Root) (signature : List ℕ) (i n : ℕ)
    → IsFirst mem root signature i n (find_table_from mem root signature i n)
unfolding find_table_from
find_table_from-IsFirst mem root signature i zero =
    λ j a b. let x : ⊥ = omega (arith, a, b) in elim x [ ]
find_table_from-IsFirst mem root signature i (suc n) =
    elim (Bool-cases (validate mem (table_pointer mem root i) signature)) [
      | inl y ↦
          rw (y, find_table_from)
            (
              i,
              omega arith,
              omega arith,
              refl,
              y,
              λ j c d. let x : ⊥ = omega (arith, c, d) in elim x [ ],
            )
      | inr y ↦
          rw (y, find_table_from)
            (IsFirst-later mem root signature i n (find_table_from mem root signature (suc i) n) y
              (find_table_from-IsFirst mem root signature (suc i) n))
    ]

-- Of the tables that the root lists, `find_table` gives the first that is valid and has the signature,
-- and a null pointer exactly if there is none.
pub find_table-IsFirst :
    (mem : Memory) (root : Root) (signature : List ℕ)
    → IsFirst mem root signature 0 (table_count mem root) (find_table mem root signature)
unfolding find_table
find_table-IsFirst mem root signature =
    find_table_from-IsFirst mem root signature 0 (table_count mem root)
