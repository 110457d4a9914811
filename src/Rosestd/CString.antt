-- ===== src/Rosestd/CString.antt =====
-- libraries/rosestd/src/cstring.cpp over a memory that maps addresses to bytes. A loop over a count is
-- a recursion on it; `strlen`, which has no count, has `fuel` rounds.
use reaveros.Prelude.{
  ℕ, zero, suc, ◌+◌, ◌-◌, ◌%◌, ◌<◌, ◌≡◌, ◌≢◌, refl, ap, ◌∙◌, Bool-cases, ==-refl, ==-false,
  eq_of_==, ne_of_==, inl, inr, true, false, Option, none, some, arith, leb, ltb, ◌==◌, ◌&&◌,
  if◌then◌else◌,
}
use reaveros.Prelude.Int.{ℤ, pos, negsuc}

-- The difference of two bytes, as an `int`.
abbrev minus : ℕ → ℕ → ℤ
minus a b = if leb b a then pos (a - b) else negsuc (b - a - 1)

unfoldable pub memcmp : (ℕ → ℕ) → ℕ → ℕ → ℕ → ℤ
memcmp mem s1 s2 zero = pos 0
memcmp mem s1 s2 (suc n) = elim (mem s1 == mem s2) [
  | true ↦ memcmp mem (suc s1) (suc s2) n
  | false ↦ minus (mem s1) (mem s2)
]

-- The loop of `memchr`, at the byte `cp`.
unfoldable pub memchr_from : (ℕ → ℕ) → ℕ → ℕ → ℕ → Option ℕ
memchr_from mem uc cp zero = none
memchr_from mem uc cp (suc n) = elim (mem cp == uc) [
  | true ↦ some cp
  | false ↦ memchr_from mem uc (suc cp) n
]

unfoldable pub memchr : (ℕ → ℕ) → ℕ → ℕ → ℕ → Option ℕ
memchr mem s c n = memchr_from mem (c % 256) s n

abbrev store : (ℕ → ℕ) → ℕ → ℕ → ℕ → ℕ
store mem a v b = if a == b then v else mem b

unfoldable pub memset : (ℕ → ℕ) → ℕ → ℕ → ℕ → ℕ → ℕ
memset mem s c zero = mem
memset mem s c (suc n) = memset (store mem s (c % 256)) (suc s) c n

-- while (*s++) {} and then s - start.
unfoldable pub strlen_from : (ℕ → ℕ) → ℕ → ℕ → ℕ → Option ℕ
strlen_from mem start zero s = none
strlen_from mem start (suc fuel) s = elim (mem s == 0) [
  | true ↦ some (suc s - start)
  | false ↦ strlen_from mem start fuel (suc s)
]

unfoldable pub strlen : (ℕ → ℕ) → ℕ → ℕ → Option ℕ
strlen mem fuel s = strlen_from mem s fuel s

-- The `n` bytes from one address on are those from another one on.
abbrev pub SameBytes : (ℕ → ℕ) → ℕ → ℕ → ℕ → Type 0
SameBytes mem s1 s2 n = (i : ℕ) → i < n → mem (s1 + i) ≡ mem (s2 + i)

SameBytes-head : (mem : ℕ → ℕ) (s1 s2 n : ℕ) → SameBytes mem s1 s2 (suc n) → mem s1 ≡ mem s2
SameBytes-head mem s1 s2 n h =
    ap mem {x = s1} {y = s1 + 0} (omega arith)
    ∙ h 0 (omega arith)
    ∙ ap mem {x = s2 + 0} (omega arith)

SameBytes-tail :
    (mem : ℕ → ℕ) (s1 s2 n : ℕ) → SameBytes mem s1 s2 (suc n) → SameBytes mem (suc s1) (suc s2) n
SameBytes-tail mem s1 s2 n h i lt =
    ap mem {x = suc s1 + i} {y = s1 + suc i} (omega arith)
    ∙ h (suc i) (omega arith)
    ∙ ap mem {x = s2 + suc i} (omega arith)

SameBytes-suc :
    (mem : ℕ → ℕ) (s1 s2 n : ℕ)
    → mem s1 ≡ mem s2
    → SameBytes mem (suc s1) (suc s2) n
    → SameBytes mem s1 s2 (suc n)
SameBytes-suc mem s1 s2 n e h zero lt =
    ap mem {x = s1 + 0} {y = s1} (omega arith) ∙ e ∙ ap mem {x = s2} (omega arith)
SameBytes-suc mem s1 s2 n e h (suc i) lt =
    ap mem {x = s1 + suc i} {y = suc s1 + i} (omega arith)
    ∙ h i (omega arith)
    ∙ ap mem {x = suc s2 + i} (omega arith)

minus_zero : (a b : ℕ) → minus a b ≡ pos 0 → a ≡ b
minus_zero a b e = ground arith

-- `memcmp` is 0 exactly if the two ranges hold the same bytes.
pub memcmp_lem :
    (mem : ℕ → ℕ) (s1 s2 n : ℕ)
    → (memcmp mem s1 s2 n ≡ pos 0 → SameBytes mem s1 s2 n)
      × (SameBytes mem s1 s2 n → memcmp mem s1 s2 n ≡ pos 0)
unfolding memcmp
memcmp_lem mem s1 s2 zero = (λ e i lt. absurd (omega arith), λ h. refl)
memcmp_lem mem s1 s2 (suc n) = elim (Bool-cases (mem s1 == mem s2)) [
  | inl e ↦
      let same : mem s1 ≡ mem s2 = ground arith in
      let (to, from) = memcmp_lem mem (suc s1) (suc s2) n in
      rw (e, memcmp)
        (λ z. SameBytes-suc mem s1 s2 n same (to z), λ h. from (SameBytes-tail mem s1 s2 n h))
  | inr e ↦
      rw (e, memcmp)
        (
          λ z. absurd (differ (minus_zero (mem s1) (mem s2) z) e),
          λ h. absurd (differ (SameBytes-head mem s1 s2 n h) e),
        )
]
  where
    differ : mem s1 ≡ mem s2 → (mem s1 == mem s2) ≢ false
    differ h e = ground arith

-- What `memchr` finds: the first place of the byte, or none among the bytes that it looks at.
abbrev pub IsFirst : (ℕ → ℕ) → ℕ → ℕ → ℕ → Option ℕ → Type 0
IsFirst mem uc s n none = (i : ℕ) → i < n → mem (s + i) ≢ uc
IsFirst mem uc s n (some p) =
    (k : ℕ) × (p ≡ s + k) × (k < n) × (mem p ≡ uc) × ((i : ℕ) → i < k → mem (s + i) ≢ uc)

-- `memset` sets the bytes of its range to the low byte of its argument, and no other byte.
pub memset_lem :
    (mem : ℕ → ℕ) (s c n a : ℕ)
    → memset mem s c n a ≡ (if leb s a && ltb a (s + n) then c % 256 else mem a)
unfolding memset
memset_lem mem s c zero a = ground arith
memset_lem mem s c (suc n) a = ground (arith, memset_lem (store mem s (c % 256)) (suc s) c n a)

differs_from :
    (mem : ℕ → ℕ) (uc s n : ℕ)
    → mem s ≢ uc
    → ((i : ℕ) → i < n → mem (suc s + i) ≢ uc)
    → (i : ℕ) → i < suc n
    → mem (s + i) ≢ uc
differs_from mem uc s n e h zero lt = λ z. e (ap mem {x = s} (omega arith) ∙ z)
differs_from mem uc s n e h (suc i) lt =
    λ z. h i (omega arith) (ap mem {x = suc s + i} {y = s + suc i} (omega arith) ∙ z)

later :
    (mem : ℕ → ℕ) (uc s n : ℕ) (o : Option ℕ)
    → mem s ≢ uc
    → IsFirst mem uc (suc s) n o
    → IsFirst mem uc s (suc n) o
later mem uc s n none e h = differs_from mem uc s n e h
later mem uc s n (some p) e (k, at, lt, found, before) =
    (suc k, omega arith, omega arith, found, differs_from mem uc s k e before)

memchr_from-IsFirst : (mem : ℕ → ℕ) (uc s n : ℕ) → IsFirst mem uc s n (memchr_from mem uc s n)
unfolding memchr_from
memchr_from-IsFirst mem uc s zero = λ i lt. absurd (omega arith)
memchr_from-IsFirst mem uc s (suc n) = elim (Bool-cases (mem s == uc)) [
  | inl e ↦
      rw (e, memchr_from)
        (0, omega arith, omega arith, eq_of_== (mem s) uc e, λ i lt. absurd (omega arith))
  | inr e ↦
      rw (e, memchr_from)
        (later mem uc s n (memchr_from mem uc (suc s) n) (ne_of_== (mem s) uc e)
          (memchr_from-IsFirst mem uc (suc s) n))
]

-- `memchr` finds the first place of the low byte of its argument among the bytes that it is given.
pub memchr-IsFirst : (mem : ℕ → ℕ) (s c n : ℕ) → IsFirst mem (c % 256) s n (memchr mem s c n)
unfolding memchr
memchr-IsFirst mem s c n = memchr_from-IsFirst mem (c % 256) s n

strlen_from_lem :
    (mem : ℕ → ℕ) (start fuel s n : ℕ)
    → mem (s + n) ≡ 0
    → ((i : ℕ) → i < n → mem (s + i) ≢ 0)
    → n < fuel
    → strlen_from mem start fuel s ≡ some (suc (s + n) - start)
unfolding strlen_from
strlen_from_lem mem start zero s n e f lt = absurd (omega arith)
strlen_from_lem mem start (suc fuel) s zero e f lt =
    rw (==-refl (mem s) 0 (ap mem {x = s} (omega arith) ∙ e), strlen_from)
      (ap some {x = suc s - start} (omega arith))
strlen_from_lem mem start (suc fuel) s (suc n) e f lt =
    rw
      (
        ==-false (mem s) 0 (λ z. f 0 (omega arith) (ap mem {x = s + 0} (omega arith) ∙ z)),
        strlen_from,
      )
      (strlen_from_lem mem start fuel (suc s) n
          (ap mem {x = suc s + n} {y = s + suc n} (omega arith) ∙ e)
          (λ i lt z.
            f (suc i) (omega arith) (ap mem {x = s + suc i} {y = suc s + i} (omega arith) ∙ z))
          (omega arith)
        ∙ ap some {x = suc (suc s + n) - start} (omega arith))

-- `strlen` of a string whose first zero byte is the `n`-th one is not `n` but one more, given
-- more than `n` rounds.
pub strlen_counts_nul :
    (mem : ℕ → ℕ) (fuel s n : ℕ)
    → mem (s + n) ≡ 0
    → ((i : ℕ) → i < n → mem (s + i) ≢ 0)
    → n < fuel
    → strlen mem fuel s ≡ some (suc n)
unfolding strlen
strlen_counts_nul mem fuel s n e f lt =
    strlen_from_lem mem s fuel s n e f lt ∙ ap some {x = suc (s + n) - s} (omega arith)
