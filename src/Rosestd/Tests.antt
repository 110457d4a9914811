-- ===== src/Rosestd/Tests.antt =====
-- Runs of libraries/rosestd on the text "17", a zero byte, and "1x".
use reaveros.Prelude.{
  Returns, ℕ, zero, suc, ◌+◌, ◌≤◌, ◌<◌, ◌≡◌, ◌≢◌, refl, true, some, [], ◌∷◌, arith,
}
use reaveros.Prelude.Int.{pos}
use reaveros.Rosestd.CString.{
  memcmp, memchr, memset, strlen, SameBytes, IsFirst, memcmp_lem, memchr-IsFirst, memset_lem,
  strlen_counts_nul,
}
use reaveros.Rosestd.StringView.{
  literal, equal_views, compare_views, compare_from, compare_sizes, Agrees, equal_views_lem,
}
use reaveros.Rosestd.CharConv.{
  no_error, invalid_argument, from_chars, from_chars_loop, digit, to_value, number_from, AllDigits,
  from_chars-number, from_chars-no_error,
}
use reaveros.Rosestd.CharConv.Writing.{wrote, to_chars, digits_loop, ReadsBack, to_chars-from_chars}

abbrev bytes : ℕ → ℕ
bytes = literal (49 ∷ 55 ∷ 0 ∷ 49 ∷ 120 ∷ [])

memcmp_lem_run :
    (memcmp bytes 0 3 1 ≡ pos 0 → SameBytes bytes 0 3 1)
    × (SameBytes bytes 0 3 1 → memcmp bytes 0 3 1 ≡ pos 0)
memcmp_lem_run = memcmp_lem bytes 0 3 1

memchr-IsFirst_run : IsFirst bytes 55 0 5 (memchr bytes 0 (256 + 55) 5)
memchr-IsFirst_run = memchr-IsFirst bytes 0 (256 + 55) 5

memset_lem_run : memset bytes 1 300 2 2 ≡ 44
memset_lem_run = memset_lem bytes 1 300 2 2

strlen_counts_nul_run : strlen bytes 9 0 ≡ some 3
strlen_counts_nul_run = strlen_counts_nul bytes 9 0 2 refl nonzero (omega arith)
  where
    nonzero : (i : ℕ) → i < 2 → bytes (0 + i) ≢ 0
    nonzero zero lt = λ e. omega arith
    nonzero (suc zero) lt = λ e. omega arith
    nonzero (suc (suc i)) lt = absurd (omega arith)

-- "17" against "1".
equal_views_lem_run :
    (equal_views bytes 2 (literal (49 ∷ [])) 1 ≡ true
      → Agrees bytes (literal (49 ∷ [])) 1 × (compare_sizes 2 1 ≡ pos 0))
    × (Agrees bytes (literal (49 ∷ [])) 1
        → compare_sizes 2 1 ≡ pos 0
        → equal_views bytes 2 (literal (49 ∷ [])) 1 ≡ true)
equal_views_lem_run = equal_views_lem bytes (literal (49 ∷ [])) 2 1

equal_to_prefix : equal_views bytes 2 (literal (49 ∷ [])) 1 ≡ true
unfolding equal_views compare_views compare_from
equal_to_prefix = refl

from_chars-number_run : from_chars 10 bytes 0 2 ≡ record { ptr = 2; ec = no_error; value = some 17 }
from_chars-number_run =
    from_chars-number 10 bytes 0 2 17 (omega arith) (omega arith)
      (unfold number_from digit to_value in refl) (omega arith)

from_chars-no_error_run : (1 ≤ 2) × ((from_chars 10 bytes 0 2).ptr ≡ 2) × AllDigits 10 bytes 0 2
from_chars-no_error_run =
    from_chars-no_error 10 bytes 0 2 (unfold from_chars from_chars_loop digit to_value in refl)

-- "1x" is refused, where the number 1 could be read.
refuses_suffix : (from_chars 10 bytes 3 2).ec ≡ invalid_argument
unfolding from_chars from_chars_loop digit to_value
refuses_suffix = refl

to_chars-from_chars_example : Returns (ReadsBack 16 255) (to_chars 70 16 64 255)
to_chars-from_chars_example =
    to_chars-from_chars 70 16 64 255 (omega arith) (omega arith) (omega arith) (omega arith)
      (omega arith)

writes_hexadecimal : to_chars 70 16 64 255 ≡ some (wrote (102 ∷ 102 ∷ []))
unfolding to_chars digits_loop
writes_hexadecimal = refl
