-- ===== src/Archive/Cpio/Named.antt =====
-- The comparison of a file's name in libraries/archive/src/cpio.cpp, in terms of the characters.
use reaveros.Prelude.{
  ℕ, zero, suc, ◌≡◌, refl, sym, Bool, true, false, ◌==◌, ◌&&◌, not, ltb, if◌then◌else◌, arith,
  Bool-cases, inl, inr, ==-refl, eq_of_==,
}
use reaveros.Prelude.Int.{pos}
use reaveros.Rosestd.StringView.{characters, compare_sizes, Agrees, equal_views_lem}
use reaveros.Archive.Cpio.{Header, filename, is_named}

-- The first `n` characters are the same.
abbrev pub same_start : (ℕ → ℕ) → (ℕ → ℕ) → ℕ → Bool
same_start s1 s2 zero = true
same_start s1 s2 (suc n) = same_start s1 s2 n && s1 n == s2 n

-- Both sizes are 0, or neither is.
abbrev pub both_empty_or_not : ℕ → ℕ → Bool
both_empty_or_not zero m = m == 0
both_empty_or_not (suc n) m = not (m == 0)

-- The shorter one of the stored name and the name asked for starts the longer one, and is not empty
-- unless both are.
abbrev pub starts_alike : (ℕ → ℕ) → (ℕ → ℕ) → ℕ → Header → Bool
starts_alike mem name size h =
    same_start (characters mem (filename h)) name (if ltb h.namesize size then h.namesize else size)
    && both_empty_or_not h.namesize size

same_start-Agrees : (s1 s2 : ℕ → ℕ) (n : ℕ) → same_start s1 s2 n ≡ true → Agrees s1 s2 n
same_start-Agrees s1 s2 zero e i lt = absurd (omega (arith, lt))
same_start-Agrees s1 s2 (suc n) e i lt = elim (Bool-cases (i == n)) [
  | inl y ↦ rw (eq_of_== i n y) (eq_of_== (s1 n) (s2 n) (ground arith))
  | inr y ↦ same_start-Agrees s1 s2 n (ground arith) i (ground (arith, y, lt))
]

Agrees-same_start : (s1 s2 : ℕ → ℕ) (n : ℕ) → Agrees s1 s2 n → same_start s1 s2 n ≡ true
Agrees-same_start s1 s2 zero h = refl
Agrees-same_start s1 s2 (suc n) h =
    rw
      (
        Agrees-same_start s1 s2 n (λ i lt. h i (omega (arith, lt))),
        ==-refl (s1 n) (s2 n) (h n (omega arith)),
      )
      refl

sizes_of : (n m : ℕ) → compare_sizes n m ≡ pos 0 → both_empty_or_not n m ≡ true
sizes_of zero zero e = refl
sizes_of zero (suc m) e = ground (arith, e)
sizes_of (suc n) zero e = ground (arith, e)
sizes_of (suc n) (suc m) e = ground arith

sizes_to : (n m : ℕ) → both_empty_or_not n m ≡ true → compare_sizes n m ≡ pos 0
sizes_to zero zero e = refl
sizes_to zero (suc m) e = ground (arith, e)
sizes_to (suc n) zero e = ground (arith, e)
sizes_to (suc n) (suc m) e = refl

both_true : (a b : Bool) → (a ≡ true → b ≡ true) → (b ≡ true → a ≡ true) → a ≡ b
both_true true b f g = sym (f refl)
both_true false true f g = g refl
both_true false false f g = refl

and_left : (a b : Bool) → (a && b) ≡ true → a ≡ true
and_left a b e = ground arith

and_right : (a b : Bool) → (a && b) ≡ true → b ≡ true
and_right a b e = ground arith

pub is_named_lem :
    (mem name : ℕ → ℕ) (size : ℕ) (h : Header)
    → is_named mem name size h ≡ starts_alike mem name size h
unfolding is_named
is_named_lem mem name size h =
    let s : ℕ → ℕ = characters mem (filename h) in
    let k : ℕ = if ltb h.namesize size then h.namesize else size in
    let (to, from) = equal_views_lem s name h.namesize size in
    both_true _ _
      (λ e.
        let p = to e in rw (Agrees-same_start s name k (p.0), sizes_of h.namesize size (p.1)) refl)
      (λ e.
        from (same_start-Agrees s name k (and_left _ (both_empty_or_not h.namesize size) e))
          (sizes_to h.namesize size (and_right (same_start s name k) _ e)))
