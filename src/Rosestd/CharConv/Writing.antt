-- ===== src/Rosestd/CharConv/Writing.antt =====
-- `to_chars` of libraries/rosestd/include/charconv at the type `uintptr_t`, and its round trip through
-- `from_chars`. What it writes is the list of the characters from `__first` on.
use native.Mathlib.Nat.{mod-lt, div-add-mod, mul_comm}
use reaveros.Prelude.{
  ℕ, zero, suc, ◌+◌, ◌*◌, ◌/◌, ◌%◌, ◌^◌, ◌≤◌, ◌<◌, ◌≡◌, refl, sym, ap, ◌≢◌, Option-cases, Never,
  Returns-imp, ◌∙◌, subst, Bool-cases, true, false, Option, none, some, List, [], ◌∷◌, arith, ltb,
  ◌==◌, ==-false, eq_of_==, ne_of_==, inl, inr, if◌then◌else◌, length, Returns,
}
use reaveros.Rosestd.StringView.{literal}
use reaveros.Rosestd.CharConv.{
  no_error, from_chars, digit, to_value, number_from, from_chars-number, max_value,
}

-- `__digits[d]`.
abbrev pub digit_char : ℕ → ℕ
digit_char d = if ltb d 10 then 48 + d else 87 + d

-- The loop over the digits, which fills the buffer from its end; `fuel` rounds.
unfoldable pub digits_loop : ℕ → ℕ → ℕ → List ℕ → Option (List ℕ)
digits_loop base zero value buffer = none
digits_loop base (suc fuel) value buffer = elim (value == 0) [
  | true ↦ some buffer
  | false ↦ digits_loop base fuel (value / base) (digit_char (value % base) ∷ buffer)
]

-- `to_chars_result`: what has been written, or `errc::value_too_large`.
pub data ToChars : Type 0 where
  wrote : List ℕ → ToChars
  value_too_large : ToChars

abbrev fit : ℕ → List ℕ → ToChars
fit room buffer = if ltb room (length buffer) then value_too_large else wrote buffer

-- `room` is `__last - __first`.
unfoldable pub to_chars : ℕ → ℕ → ℕ → ℕ → Option ToChars
to_chars fuel base room value =
    if room == 0
    then some value_too_large
    else if value == 0
    then some (wrote (48 ∷ []))
    else (elim (digits_loop base fuel value []) [
      | none ↦ none
      | some buffer ↦ some (fit room buffer)
    ])

-- The number that a list of characters spells behind the digits of `temp`.
abbrev number_of : ℕ → ℕ → List ℕ → Option ℕ
number_of base temp [] = some temp
number_of base temp (c ∷ cs) = elim (digit base c) [
  | none ↦ none
  | some d ↦ number_of base (temp * base + d) cs
]

digit-digit_char : (base d : ℕ) → d < base → base ≤ 36 → digit base (digit_char d) ≡ some d
unfolding digit to_value
digit-digit_char base d lt le = ground arith

div_mod : (v b : ℕ) → v / b * b + v % b ≡ v
div_mod v b = ap (λ n. n + v % b) (mul_comm (v / b) b) ∙ div-add-mod v b

half : (v b : ℕ) → 2 ≤ b → v / b * 2 ≤ v
half v zero le = absurd (omega arith)
half v (suc zero) le = absurd (omega arith)
half v (suc (suc k)) le = omega (arith, div-add-mod v (suc (suc k)))

-- The characters in the buffer spell on from the value, and there are at most `n` more of them.
abbrev Spells : ℕ → ℕ → ℕ → List ℕ → List ℕ → Type 0
Spells base n v buffer cs =
    (number_of base 0 cs ≡ number_of base v buffer) × (length cs ≤ n + length buffer)

number_of-digit :
    (base d temp : ℕ) (cs : List ℕ)
    → d < base
    → base ≤ 36
    → number_of base temp (digit_char d ∷ cs) ≡ number_of base (temp * base + d) cs
number_of-digit base d temp cs lt le = rw (digit-digit_char base d lt le, number_of) refl

one_more :
    (base fuel n v : ℕ) (buffer : List ℕ)
    → 2 ≤ base
    → base ≤ 36
    → v < 2 ^ n
    → n < suc fuel
    → v ≢ 0
    → ((m : ℕ)
        → v / base < 2 ^ m
        → m < fuel
        → Returns
            (Spells base m (v / base) (digit_char (v % base) ∷ buffer))
            (digits_loop base fuel (v / base) (digit_char (v % base) ∷ buffer)))
    → Returns
        (Spells base n v buffer)
        (digits_loop base fuel (v / base) (digit_char (v % base) ∷ buffer))
one_more base fuel zero v buffer lo hi small lt nonzero go = absurd (nonzero (omega arith))
one_more base fuel (suc m) v buffer lo hi small lt nonzero go =
    Returns-imp (Spells base (suc m) v buffer)
      (digits_loop base fuel (v / base) (digit_char (v % base) ∷ buffer))
      (λ cs k. (
        k.0
            ∙ number_of-digit base (v % base) (v / base) buffer (mod-lt v (omega arith)) hi
            ∙ ap (λ t. number_of base t buffer) (div_mod v base),
        omega (arith, k.1),
      ))
      (go m (omega (arith, half v base lo)) (omega arith))

digits_loop-Spells :
    (base fuel n v : ℕ) (buffer : List ℕ)
    → 2 ≤ base
    → base ≤ 36
    → v < 2 ^ n
    → n < fuel
    → Returns (Spells base n v buffer) (digits_loop base fuel v buffer)
unfolding digits_loop
digits_loop-Spells base zero n v buffer lo hi small lt = absurd (omega arith)
digits_loop-Spells base (suc fuel) n v buffer lo hi small lt = elim (Bool-cases (v == 0)) [
  | inl e ↦
      rw (e, digits_loop) (ap (λ k. number_of base k buffer) (sym (eq_of_== v 0 e)), omega arith)
  | inr e ↦
      rw (e, digits_loop)
        (one_more base fuel n v buffer lo hi small lt (ne_of_== v 0 e)
          (λ m. digits_loop-Spells base fuel m (v / base) (digit_char (v % base) ∷ buffer) lo hi))
]

number_from-literal :
    (base : ℕ) (mem : ℕ → ℕ) (temp first : ℕ) (cs : List ℕ)
    → ((i : ℕ) → mem (first + i) ≡ literal cs i)
    → number_from base mem temp first (length cs) ≡ number_of base temp cs
unfolding number_from
number_from-literal base mem temp first [] same = refl
number_from-literal base mem temp first (c ∷ cs) same =
    let here : mem first ≡ c = ap mem {x = first} {y = first + 0} (omega arith) ∙ same 0 in
    rw (here, number_from)
      (elim (Option-cases (digit base c)) [
        | inl e ↦ rw (e, number_from, number_of) refl
        | inr (d, e) ↦
            rw (e, number_from, number_of)
              (number_from-literal base mem (temp * base + d) (suc first) cs
                λ i. ap mem {x = suc first + i} {y = first + suc i} (omega arith) ∙ same (suc i))
      ])

-- A number that is not 0 has a character.
nonempty : (base v : ℕ) (cs : List ℕ) → v ≢ 0 → number_of base 0 cs ≡ some v → 1 ≤ length cs
nonempty base v [] n e = absurd (n (ground arith))
nonempty base v (c ∷ cs) n e = omega arith

-- What has been written is read back.
abbrev pub ReadsBack : ℕ → ℕ → ToChars → Type 0
ReadsBack base v value_too_large = Never
ReadsBack base v (wrote cs) =
    from_chars base (literal cs) 0 (length cs)
    ≡ record { ptr = 0 + length cs; ec = no_error; value = some v }

fit-ReadsBack :
    (base room v : ℕ) (cs : List ℕ)
    → 2 ≤ base
    → 64 ≤ room
    → v ≢ 0
    → v ≤ max_value / 10
    → Spells base 64 v [] cs
    → ReadsBack base v (fit room cs)
fit-ReadsBack base room v cs lo wide nonzero small k = rw (fits) reads
  where
    fits : ltb room (length cs) ≡ false
    fits = ground (arith, k.1)

    reads : ReadsBack base v (wrote cs)
    reads =
        from_chars-number base (literal cs) 0 (length cs) v (omega arith)
          (nonempty base v cs nonzero k.0)
          (number_from-literal base (literal cs) 0 0 cs
              (λ i. ap (literal cs) {x = 0 + i} (omega arith))
            ∙ k.0)
          small

written-ReadsBack :
    (base room v : ℕ) (o : Option (List ℕ))
    → 2 ≤ base
    → 64 ≤ room
    → v ≢ 0
    → v ≤ max_value / 10
    → Returns (Spells base 64 v []) o
    → Returns (ReadsBack base v) (elim o [ none ↦ none | some buffer ↦ some (fit room buffer) ])
written-ReadsBack base room v none lo wide nonzero small k = k
written-ReadsBack base room v (some cs) lo wide nonzero small k =
    fit-ReadsBack base room v cs lo wide nonzero small k

zero-ReadsBack : (base : ℕ) → 2 ≤ base → base ≤ 36 → ReadsBack base 0 (wrote (48 ∷ []))
zero-ReadsBack base lo hi =
    from_chars-number base (literal (48 ∷ [])) 0 1 0 (omega arith) (omega arith)
      (number_from-literal base (literal (48 ∷ [])) 0 0 (48 ∷ [])
          (λ i. ap (literal (48 ∷ [])) {x = 0 + i} (omega arith))
        ∙ number_of-digit base 0 0 [] (omega arith) hi
        ∙ ap some (omega arith))
      (omega arith)

-- In a base from 2 to 36, `to_chars` writes a number that is at most a tenth of the largest value into
-- a buffer of 64 characters or more, and `from_chars` reads from what it has written this number, up
-- to the end; it ends within 65 rounds.
pub to_chars-from_chars :
    (fuel base room v : ℕ)
    → 64 < fuel
    → 2 ≤ base
    → base ≤ 36
    → 64 ≤ room
    → v ≤ max_value / 10
    → Returns (ReadsBack base v) (to_chars fuel base room v)
unfolding to_chars
to_chars-from_chars fuel base room v lt lo hi wide small =
    rw (==-false room 0 (λ e. omega arith)) (elim (Bool-cases (v == 0)) [
      | inl e ↦ rw e (
          subst (λ k. ReadsBack base k (wrote (48 ∷ []))) (sym (eq_of_== v 0 e))
            (zero-ReadsBack base lo hi))
      | inr e ↦ rw e (
          written-ReadsBack base room v (digits_loop base fuel v []) lo wide (ne_of_== v 0 e) small
            (digits_loop-Spells base fuel 64 v [] lo hi (omega arith) lt))
    ])
