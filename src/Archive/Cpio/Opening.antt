-- ===== src/Archive/Cpio/Opening.antt =====
-- `try_cpio` of libraries/archive/src/cpio.cpp: it ends, and what it accepts is a list of entries.
use reaveros.Prelude.{
  ℕ, zero, suc, ◌+◌, ◌%◌, ◌^◌, ◌≤◌, ◌<◌, ◌≡◌, refl, subst, ◌∙◌, false, List, [], ◌∷◌, arith,
  if◌then◌else◌, Bool-cases, inl, inr, Returns, Returns-imp,
}
use reaveros.Archive.Cpio.{
  Header, EntryResult, entry, failed, is_file, end_of, get_entry, next, is_trailer, TryResult,
  archive, rejected, try_from, try_cpio,
}
use reaveros.Archive.Cpio.Laws.{IsEntry, IsRead, get_entry-IsRead, Listing, last, more, count_files}

-- What comes of the entries from `a` on, where `size` files have been counted before.
abbrev pub IsVerdict : (ℕ → ℕ) → ℕ → ℕ → ℕ → ℕ → TryResult → Type 0
IsVerdict mem base end a size (archive c) =
    (hs : List Header) × Listing mem end a hs
    × (c.base ≡ base)
    × (c.limit ≡ end)
    × (c.size ≡ (size + count_files hs) % 2 ^ 64)
IsVerdict mem base end a size (rejected e offset) = base + offset ≤ end

-- `++size` for a regular file.
abbrev counted : Header → ℕ → ℕ
counted h size = if is_file h then (size + 1) % 2 ^ 64 else size

counted_last :
    (h : Header) (size : ℕ)
    → size < 2 ^ 64
    → counted h size ≡ (size + count_files (h ∷ [])) % 2 ^ 64
counted_last h size lt = ground arith

counted_more :
    (h : Header) (hs : List Header) (size : ℕ)
    → (counted h size + count_files hs) % 2 ^ 64 ≡ (size + count_files (h ∷ hs)) % 2 ^ 64
counted_more h hs size = elim (Bool-cases (is_file h)) [
  | inl e ↦ rw e (omega arith)
  | inr e ↦ rw e refl
]

counted_small : (h : Header) (size : ℕ) → size < 2 ^ 64 → counted h size < 2 ^ 64
counted_small h size lt = ground arith

IsVerdict-more :
    (mem : ℕ → ℕ) (base end a size : ℕ) (h : Header)
    → get_entry mem a end ≡ entry h
    → is_trailer mem h ≡ false
    → (r : TryResult) → IsVerdict mem base end (end_of h) (counted h size) r
    → IsVerdict mem base end a size r
IsVerdict-more mem base end a size h e t (archive c) (hs, l, b, f, n) =
    (h ∷ hs, more a h hs e t l, b, f, n ∙ counted_more h hs size)
IsVerdict-more mem base end a size h e t (rejected w offset) v = v

try_from-IsVerdict :
    (mem : ℕ → ℕ) (base end fuel size a : ℕ) (r : EntryResult)
    → get_entry mem a end ≡ r
    → base ≤ a
    → a ≤ end
    → end < a + fuel
    → size < 2 ^ 64
    → Returns (IsVerdict mem base end a size) (try_from mem base end fuel size r)
unfolding try_from
try_from-IsVerdict mem base end zero size a r e lo hi lt small = absurd (omega arith)
try_from-IsVerdict mem base end (suc fuel) size a (failed w at) e lo hi lt small =
    let at_a : at ≡ a = subst (IsRead a end) e (get_entry-IsRead mem a end) in omega arith
try_from-IsVerdict mem base end (suc fuel) size a (entry h) e lo hi lt small =
    let i : IsEntry a end h = subst (IsRead a end) e (get_entry-IsRead mem a end) in
    elim (Bool-cases (is_trailer mem h)) [
      | inl t ↦ rw (t, try_from) (h ∷ [], last a h e t, refl, refl, counted_last h size small)
      | inr t ↦
          rw (t, try_from)
            (Returns-imp (IsVerdict mem base end a size)
              (try_from mem base end fuel (counted h size) (next mem end h))
              (IsVerdict-more mem base end a size h e t)
              (try_from-IsVerdict mem base end fuel (counted h size) (end_of h) (next mem end h)
                (unfold next in refl) (omega (arith, i.0)) (omega (arith, i.1)) (omega (arith, i.0))
                (counted_small h size small)))
    ]

-- `try_cpio`, given more rounds than the archive has characters, ends. What it accepts is a list
-- of entries up to a trailer, and the size that it stores is the number of regular files among them;
-- where it refuses, the offset that it reports lies in the archive or at its end.
pub try_cpio-IsVerdict :
    (mem : ℕ → ℕ) (fuel base length : ℕ)
    → length < fuel
    → Returns (IsVerdict mem base (base + length) base 0) (try_cpio mem fuel base length)
unfolding try_cpio
try_cpio-IsVerdict mem fuel base length lt =
    try_from-IsVerdict mem base (base + length) fuel 0 base (get_entry mem base (base + length))
      refl (omega arith) (omega arith) (omega arith) (omega arith)
