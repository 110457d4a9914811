-- ===== src/Rosestd/CharConv.antt =====
-- `from_chars` of libraries/rosestd/include/charconv, at the type `uintptr_t` of 64 bits, over a
-- memory that maps addresses to characters.
pub mod Writing
use reaveros.Prelude.{
  ℕ, zero, suc, ◌+◌, ◌-◌, ◌*◌, ◌/◌, ◌%◌, ◌^◌, ◌≤◌, ◌<◌, ◌≡◌, ◌≢◌, sym, ap, ◌∙◌, Bool, Bool-cases,
  true, false, Option, none, some, Option-cases, arith, leb, ltb, ◌==◌, ◌&&◌, inl, inr,
  if◌then◌else◌, ◌>>=◌,
}

-- The values of `errc` that the parser returns.
pub data Errc : Type 0 where
  no_error invalid_argument result_out_of_range : Errc

-- `from_chars_result`, and what has been stored through the reference, if anything.
pub record FromChars : Type 0 where
  pub ptr : ℕ
  pub ec : Errc
  pub value : Option ℕ

-- `__to_value`, with none for -1.
unfoldable pub to_value : ℕ → Option ℕ
to_value c =
    if leb 48 c && leb c 57
    then some (c - 48)
    else if leb 97 c && leb c 122
    then some (c - 97 + 10)
    else if leb 65 c && leb c 90
    then some (c - 65 + 10)
    else none

-- A digit of the base.
unfoldable pub digit : ℕ → ℕ → Option ℕ
digit base c = to_value c >>= λ v. if leb base v then none else some v

-- `__max<_T>::value`.
abbrev pub max_value : ℕ
max_value = 2 ^ 64 - 1

-- The test for overflow.
abbrev pub out_of_range : ℕ → ℕ → Bool
out_of_range temp c = ltb (max_value / 10 + (if c == 0 then 0 else 1)) temp

-- The loop, with the number of characters left. `__valid` is never set, so that the branch that
-- ends the loop at a character that is no digit is never taken.
unfoldable pub from_chars_loop : ℕ → (ℕ → ℕ) → ℕ → ℕ → ℕ → FromChars
from_chars_loop base mem temp first zero = record { ptr = first; ec = no_error; value = some temp }
from_chars_loop base mem temp first (suc n) = elim (digit base (mem first)) [
  | none ↦ record { ptr = first; ec = invalid_argument; value = none }
  | some c ↦ elim (out_of_range temp c) [
    | true ↦ record { ptr = first; ec = result_out_of_range; value = none }
    | false ↦ from_chars_loop base mem ((temp * base + c) % 2 ^ 64) (suc first) n
  ]
]

unfoldable pub from_chars : ℕ → (ℕ → ℕ) → ℕ → ℕ → FromChars
from_chars base mem first zero = record { ptr = first; ec = invalid_argument; value = none }
from_chars base mem first (suc n) = from_chars_loop base mem 0 first (suc n)

-- The number that `n` characters spell in the base, behind the digits of `temp`: with no limit.
unfoldable pub number_from : ℕ → (ℕ → ℕ) → ℕ → ℕ → ℕ → Option ℕ
number_from base mem temp first zero = some temp
number_from base mem temp first (suc n) = elim (digit base (mem first)) [
  | none ↦ none
  | some c ↦ number_from base mem (temp * base + c) (suc first) n
]

number_from-none :
    (base : ℕ) (mem : ℕ → ℕ) (temp first n : ℕ)
    → digit base (mem first) ≡ none
    → number_from base mem temp first (suc n) ≡ none
unfolding number_from
number_from-none base mem temp first n e = rw (e, number_from)

number_from-some :
    (base : ℕ) (mem : ℕ → ℕ) (temp first n c : ℕ)
    → digit base (mem first) ≡ some c
    → number_from base mem temp first (suc n) ≡ number_from base mem (temp * base + c) (suc first) n
unfolding number_from
number_from-some base mem temp first n c e = rw (e, number_from)

grows : (temp base c : ℕ) → 1 ≤ base → temp ≤ temp * base + c
grows temp zero c le = absurd (omega arith)
grows temp (suc b) c le = omega arith

number_from-grows :
    (base : ℕ) (mem : ℕ → ℕ) (temp first n v : ℕ)
    → 1 ≤ base
    → number_from base mem temp first n ≡ some v
    → temp ≤ v
number_from-grows base mem temp first zero v b e = unfold number_from in ground arith
number_from-grows base mem temp first (suc n) v b e = elim (Option-cases (digit base (mem first))) [
  | inl h ↦ let z = number_from-none base mem temp first n h in cc
  | inr (c, h) ↦
      let below : temp * base + c ≤ v =
        number_from-grows base mem (temp * base + c) (suc first) n v b
          (sym (number_from-some base mem temp first n c h) ∙ e) in
      omega (arith, grows temp base c b)
]

in_range : (temp c v : ℕ) → temp ≤ v → v ≤ max_value / 10 → out_of_range temp c ≡ false
in_range temp c v le lt = ground arith

-- The number that the characters spell, if all of them are digits of the base and it is at most a
-- tenth of the largest value, is what the loop stores, and it stops at the end without an error.
from_chars_loop_lem :
    (base : ℕ) (mem : ℕ → ℕ) (temp first n v : ℕ)
    → 1 ≤ base
    → number_from base mem temp first n ≡ some v
    → v ≤ max_value / 10
    → from_chars_loop base mem temp first n
      ≡ record { ptr = first + n; ec = no_error; value = some v }
unfolding from_chars_loop
from_chars_loop_lem base mem temp first zero v b e le = unfold number_from in ground arith
from_chars_loop_lem base mem temp first (suc n) v b e le =
    elim (Option-cases (digit base (mem first))) [
      | inl h ↦ let z = number_from-none base mem temp first n h in cc
      | inr (c, h) ↦
          let rest : number_from base mem (temp * base + c) (suc first) n ≡ some v =
            sym (number_from-some base mem temp first n c h) ∙ e in
          let below : temp * base + c ≤ v =
            number_from-grows base mem (temp * base + c) (suc first) n v b rest in
          let small : temp ≤ v = omega (arith, grows temp base c b) in
          let whole : (temp * base + c) % 2 ^ 64 ≡ temp * base + c = omega arith in
          rw (h, from_chars_loop)
            (rw (in_range temp c v small le, from_chars_loop)
              (rw (whole, from_chars_loop)
                (from_chars_loop_lem base mem (temp * base + c) (suc first) n v b rest le
                  ∙ ap (λ p. record { ptr = p; ec = no_error; value = some v }) {x = suc first + n}
                      (omega arith))))
    ]

-- One character or more that are all digits of the base, and spell a number that is at most a tenth
-- of the largest value, are read as this number, without an error and up to the end.
pub from_chars-number :
    (base : ℕ) (mem : ℕ → ℕ) (first n v : ℕ)
    → 1 ≤ base
    → 1 ≤ n
    → number_from base mem 0 first n ≡ some v
    → v ≤ max_value / 10
    → from_chars base mem first n ≡ record { ptr = first + n; ec = no_error; value = some v }
unfolding from_chars
from_chars-number base mem first zero v b l e le = absurd (omega arith)
from_chars-number base mem first (suc n) v b l e le =
    from_chars_loop_lem base mem 0 first (suc n) v b e le

-- All of the `n` characters are digits of the base.
abbrev pub AllDigits : ℕ → (ℕ → ℕ) → ℕ → ℕ → Type 0
AllDigits base mem first n = (i : ℕ) → i < n → digit base (mem (first + i)) ≢ none

-- If there is no error, the end has been reached over digits.
abbrev Ends : ℕ → (ℕ → ℕ) → ℕ → ℕ → FromChars → Type 0
Ends base mem first n r = r.ec ≡ no_error → (r.ptr ≡ first + n) × AllDigits base mem first n

Ends-suc :
    (base : ℕ) (mem : ℕ → ℕ) (first n c : ℕ) (r : FromChars)
    → digit base (mem first) ≡ some c
    → Ends base mem (suc first) n r
    → Ends base mem first (suc n) r
Ends-suc base mem first n c r h ends e = ((ends e).0 ∙ omega arith, λ (i : ℕ). λ lt. each i lt)
  where
    each : (i : ℕ) → i < suc n → digit base (mem (first + i)) ≢ none
    each zero lt = λ z.
        let here : digit base (mem first) ≡ none =
          ap (λ a. digit base (mem a)) {x = first} {y = first + 0} (omega arith) ∙ z in
        cc
    each (suc i) lt = λ z.
        (ends e).1 i (omega arith)
          (ap (λ a. digit base (mem a)) {x = suc first + i} {y = first + suc i} (omega arith) ∙ z)

from_chars_loop-Ends :
    (base : ℕ) (mem : ℕ → ℕ) (temp first n : ℕ)
    → Ends base mem first n (from_chars_loop base mem temp first n)
unfolding from_chars_loop
from_chars_loop-Ends base mem temp first zero = λ e. (omega arith, λ i lt. absurd (omega arith))
from_chars_loop-Ends base mem temp first (suc n) = elim (Option-cases (digit base (mem first))) [
  | inl h ↦ rw (h, from_chars_loop) (λ e. cc)
  | inr (c, h) ↦ elim (Bool-cases (out_of_range temp c)) [
    | inl o ↦ rw (h, from_chars_loop) (rw (o, from_chars_loop) (λ e. cc))
    | inr o ↦
        rw (h, from_chars_loop)
          (rw (o, from_chars_loop)
            (Ends-suc base mem first n c
              (from_chars_loop base mem ((temp * base + c) % 2 ^ 64) (suc first) n) h
              (from_chars_loop-Ends base mem ((temp * base + c) % 2 ^ 64) (suc first) n)))
  ]
]

-- Without an error there were characters, all of them were digits of the base, and the end has been
-- reached: a number that something else follows is refused.
pub from_chars-no_error :
    (base : ℕ) (mem : ℕ → ℕ) (first n : ℕ)
    → (from_chars base mem first n).ec ≡ no_error
    → (1 ≤ n) × ((from_chars base mem first n).ptr ≡ first + n) × AllDigits base mem first n
unfolding from_chars
from_chars-no_error base mem first zero e = cc
from_chars-no_error base mem first (suc n) e =
    let (at_end, digits) = from_chars_loop-Ends base mem 0 first (suc n) e in
    (omega arith, at_end, digits)
