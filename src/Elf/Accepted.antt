-- ===== src/Elf/Accepted.antt =====
-- What `try_parse` of libraries/elf/src/elf.cpp accepts, and that it ends.
use reaveros.Prelude.{
  ℕ, zero, suc, ◌+◌, ◌*◌, ◌≤◌, ◌<◌, ◌≡◌, ◌≢◌, ◌⊎◌, refl, sym, ap, subst, ◌∙◌, Bool, true, false,
  Option, none, some, arith, ◌==◌, ==-refl, ltb, not, ◌&&◌, ◌||◌, if◌then◌else◌, eq_of_==,
  Bool-cases, inl, inr,
}
use reaveros.Elf.{
  Reason, Verdict, accepted, refused, unending, ◌>>=◌, check, number, segments_end, sections_end,
  is_segment, scan_segments, Dynamic, is_ignored, dynamic_step, scan_dynamic, section_rounds, Image,
  no_tables, check_init, sized, segment_start, read_dynamic, check_header, scan_sections, try_parse,
  unsupported_rela, unsupported_syment, symtab_without_section, too_small, bad_magic, not_elf64,
  not_little_endian, not_loadable, not_amd64, not_version_1, program_headers_beyond,
  section_headers_beyond,
}
use reaveros.Elf.Segments.{Segments, scan_segments-Segments}
use reaveros.Elf.Steps.{
  Accepts, Accepts-bind, Accepts-check, Accepts-imp, IsInside, scan_sections-IsInside, Ends,
  Ends-bind, Ends-check, scan_segments-Ends, scan_sections-Ends,
}

Ends-if : {A : Type 0} (c : Bool) (v w : Verdict A) → Ends v → Ends w → Ends (if c then v else w)
Ends-if true v w h k = h
Ends-if false v w h k = k

dynamic_step-Ends :
    (base offset tag value : ℕ) (d : Dynamic) → Ends (dynamic_step base offset tag value d)
unfolding dynamic_step
dynamic_step-Ends base offset tag value d = Ends-if (is_ignored tag) _ _ tt (
    Ends-if (tag == 5) _ _ tt (
      Ends-if (tag == 6) _ _ tt (
        Ends-if (tag == 7) _ _ tt (
          Ends-if (tag == 8) _ _ tt (
            Ends-if (tag == 9) _ _
              (Ends-bind (check (value == 24) unsupported_rela 0) _
                (Ends-check (value == 24) unsupported_rela 0) (λ u. tt))
              (Ends-if (tag == 11) _ _
                (Ends-bind (check (value == 24) unsupported_syment 0) _
                  (Ends-check (value == 24) unsupported_syment 0) (λ u. tt))
                (Ends-if (tag == 25) _ _ tt (Ends-if (tag == 27) _ _ tt tt))))))))

-- The loop over the dynamic entries ends within as many rounds as there are up to one of the tag 0.
scan_dynamic-Ends :
    (fuel k : ℕ) (mem : ℕ → ℕ) (base offset : ℕ) (d : Dynamic)
    → k < fuel
    → number mem 8 (base + offset + 16 * k) ≡ 0
    → Ends (scan_dynamic fuel mem base offset d)
unfolding scan_dynamic
scan_dynamic-Ends zero k mem base offset d lt e = omega (arith, lt)
scan_dynamic-Ends (suc fuel) zero mem base offset d lt e =
    let here : base + offset + 16 * 0 ≡ base + offset = omega arith in
    rw (==-refl (number mem 8 (base + offset)) 0 (ap (number mem 8) (sym here) ∙ e), scan_dynamic)
      tt
scan_dynamic-Ends (suc fuel) (suc k) mem base offset d lt e =
    elim (Bool-cases (number mem 8 (base + offset) == 0)) [
      | inl y ↦ rw (y, scan_dynamic) tt
      | inr y ↦
          let there : base + offset + 16 * suc k ≡ base + (offset + 16) + 16 * k = omega arith in
          rw (y, scan_dynamic)
            (Ends-bind
              (dynamic_step base offset (number mem 8 (base + offset))
                (number mem 8 (base + offset + 8)) d)
              _
              (dynamic_step-Ends base offset (number mem 8 (base + offset))
                (number mem 8 (base + offset + 8)) d)
              (λ f.
                scan_dynamic-Ends fuel k mem base (offset + 16) (record f { count = f.count + 1 })
                  (omega (arith, lt)) (ap (number mem 8) (sym there) ∙ e)))
    ]

Ends-check_init : (i s : Option ℕ) → Ends (check_init i s)
Ends-check_init none none = tt
Ends-check_init (some i) none = tt
Ends-check_init none (some s) = tt
Ends-check_init (some i) (some s) = tt

-- The program header `j` of an image.
abbrev pub header_at : (ℕ → ℕ) → ℕ → ℕ → ℕ
header_at mem base j = base + number mem 8 (base + 32) + j * number mem 2 (base + 54)

-- Each program header's offset is that of a list of dynamic entries, of which one with the tag 0 stands
-- within the number of rounds.
abbrev pub AllTerminated : ℕ → (ℕ → ℕ) → ℕ → Type 0
AllTerminated fuel mem base =
    (j : ℕ)
    → j < number mem 2 (base + 56)
    → number mem 4 (header_at mem base j) ≡ 2
    → (k : ℕ) × (k < fuel)
      × (number mem 8 (base + number mem 8 (header_at mem base j + 8) + 16 * k) ≡ 0)

read_dynamic-Ends :
    (fuel : ℕ) (mem : ℕ → ℕ) (base : ℕ) (dynamic : Option ℕ)
    → ((at : ℕ)
        → dynamic ≡ some at
        → (k : ℕ) × (k < fuel) × (number mem 8 (base + number mem 8 (at + 8) + 16 * k) ≡ 0))
    → Ends (read_dynamic fuel mem base dynamic)
unfolding read_dynamic
read_dynamic-Ends fuel mem base none h = tt
read_dynamic-Ends fuel mem base (some at) h =
    let k = h at refl in
    Ends-bind (scan_dynamic fuel mem base (number mem 8 (at + 8)) no_tables) _
      (scan_dynamic-Ends fuel k.0 mem base (number mem 8 (at + 8)) no_tables k.1 k.2)
      (λ d.
        Ends-bind (check_init d.init d.init_size) _ (Ends-check_init d.init d.init_size) (λ u. tt))

Accepts-any : {A : Type 0} (v : Verdict A) → Accepts (λ a. Unit {0}) v
Accepts-any (accepted a) = tt
Accepts-any (refused r n) = tt
Accepts-any unending = tt

Ends-after {κ} :
    {A B : Type 0} (P : A → Type κ) (v : Verdict A) (f : A → Verdict B)
    → Ends v
    → Accepts P v
    → ((a : A) → P a → Ends (f a))
    → Ends (v >>= f)
Ends-after P (accepted a) f e h k = k a h
Ends-after P (refused r n) f e h k = tt
Ends-after P unending f e h k = e

-- What is behind a check.
Accepts-checked {κ} :
    {A : Type 0} (Q : A → Type κ) (b : Bool) (r : Reason) (n : ℕ) (v : Verdict A)
    → (b ≡ true → Accepts Q v)
    → Accepts Q (check b r n >>= λ _. v)
Accepts-checked Q true r n v h = h refl
Accepts-checked Q false r n v h = tt

Ends-checked :
    {A : Type 0} (b : Bool) (r : Reason) (n : ℕ) (v : Verdict A)
    → Ends v
    → Ends (check b r n >>= λ _. v)
Ends-checked true r n v h = h
Ends-checked false r n v h = tt

-- A header of a little-endian ELF64 program or shared object for AMD64, whose tables end, as words are
-- added, within the image.
pub record Header (mem : ℕ → ℕ) (base length : ℕ) : Type 0 where
  pub long : 64 ≤ length
  pub magic :
      (mem base ≡ 127) × (mem (base + 1) ≡ 69) × (mem (base + 2) ≡ 76) × (mem (base + 3) ≡ 70)
  pub class : mem (base + 4) ≡ 2
  pub encoding : mem (base + 5) ≡ 1
  pub loadable : (number mem 2 (base + 16) ≡ 2) ⊎ (number mem 2 (base + 16) ≡ 3)
  pub machine : number mem 2 (base + 18) ≡ 62
  pub version : number mem 4 (base + 20) ≡ 1
  pub segments : segments_end mem base ≤ length
  pub sections : sections_end mem base ≤ length

within : (a b : ℕ) → not (ltb a b) ≡ true → b ≤ a
within a b e = ground (arith, e)

either : (a b c : ℕ) → (a == b || a == c) ≡ true → (a ≡ b) ⊎ (a ≡ c)
either a b c e = ground (arith, e)

magic_bytes :
    (a b c d : ℕ)
    → (a == 127 && b == 69 && c == 76 && d == 70) ≡ true
    → (a ≡ 127) × (b ≡ 69) × (c ≡ 76) × (d ≡ 70)
magic_bytes a b c d e = ground arith

check_header-Header :
    (mem : ℕ → ℕ) (base length : ℕ)
    → Accepts (λ _. Header mem base length) (check_header mem base length)
unfolding check_header
check_header-Header mem base length = Accepts-checked _ (not (ltb length 64)) too_small 0 _ (λ a.
    Accepts-checked _
      (mem base == 127 && mem (base + 1) == 69 && mem (base + 2) == 76 && mem (base + 3) == 70)
      bad_magic 0 _
      (λ m. Accepts-checked _ (mem (base + 4) == 2) not_elf64 0 _ (λ b.
        Accepts-checked _ (mem (base + 5) == 1) not_little_endian 0 _ (λ c.
          Accepts-checked _ (number mem 2 (base + 16) == 2 || number mem 2 (base + 16) == 3)
            not_loadable 0 _
            (λ d. Accepts-checked _ (number mem 2 (base + 18) == 62) not_amd64 0 _ (λ e.
              Accepts-checked _ (number mem 4 (base + 20) == 1) not_version_1 0 _ (λ f.
                Accepts-checked _ (not (ltb length (segments_end mem base))) program_headers_beyond
                  0 _
                  (λ g.
                    Accepts-imp _ _
                      (check (not (ltb length (sections_end mem base))) section_headers_beyond 0)
                      (λ u h. record {
                        long = within length 64 a;
                        magic =
                            magic_bytes (mem base) (mem (base + 1)) (mem (base + 2))
                              (mem (base + 3)) m;
                        class = eq_of_== (mem (base + 4)) 2 b;
                        encoding = eq_of_== (mem (base + 5)) 1 c;
                        loadable = either (number mem 2 (base + 16)) 2 3 d;
                        machine = eq_of_== (number mem 2 (base + 18)) 62 e;
                        version = eq_of_== (number mem 4 (base + 20)) 1 f;
                        segments = within length (segments_end mem base) g;
                        sections = within length (sections_end mem base) h;
                      })
                      (Accepts-check (not (ltb length (sections_end mem base)))
                        section_headers_beyond 0)))))))))

check_header-Ends : (mem : ℕ → ℕ) (base length : ℕ) → Ends (check_header mem base length)
unfolding check_header
check_header-Ends mem base length = Ends-checked (not (ltb length 64)) too_small 0 _ (
    Ends-checked
      (mem base == 127 && mem (base + 1) == 69 && mem (base + 2) == 76 && mem (base + 3) == 70)
      bad_magic 0 _
      (Ends-checked (mem (base + 4) == 2) not_elf64 0 _ (
        Ends-checked (mem (base + 5) == 1) not_little_endian 0 _ (
          Ends-checked (number mem 2 (base + 16) == 2 || number mem 2 (base + 16) == 3) not_loadable
            0 _
            (Ends-checked (number mem 2 (base + 18) == 62) not_amd64 0 _ (
              Ends-checked (number mem 4 (base + 20) == 1) not_version_1 0 _ (
                Ends-checked (not (ltb length (segments_end mem base))) program_headers_beyond 0 _ (
                  Ends-check (not (ltb length (sections_end mem base))) section_headers_beyond
                    0))))))))

-- What an accepted image is.
pub record IsSupported (mem : ℕ → ℕ) (base length : ℕ) (image : Image) : Type 0 where
  pub header : Header mem base length
  pub segments :
      (j : ℕ)
      → j < number mem 2 (base + 56)
      → (is_segment (number mem 4 (header_at mem base j)) ≡ true)
        ⊎ ((number mem 4 (header_at mem base j) ≡ 2)
            × (image.dynamic_base ≡ some (base + number mem 8 (header_at mem base j + 8))))
  pub one_dynamic :
      (j k : ℕ)
      → j < number mem 2 (base + 56)
      → k < number mem 2 (base + 56)
      → number mem 4 (header_at mem base j) ≡ 2
      → number mem 4 (header_at mem base k) ≡ 2
      → j ≡ k
  pub sections :
      (j : ℕ)
      → 1 ≤ j
      → j < 1 + section_rounds (number mem 2 (base + 60))
      → IsInside mem length (base + number mem 8 (base + 40) + j * number mem 2 (base + 58))
  pub symbols : (s : ℕ) → image.tables.symtab ≡ some s → image.symtab_size ≢ 0

has_size :
    (symtab : Option ℕ) (size : ℕ) → sized symtab size ≡ true → (s : ℕ) → symtab ≡ some s → size ≢ 0
has_size none size e s q z = ground (arith, q)
has_size (some t) size e s q z = ground (arith, e, z)

-- Of the images that `try_parse` accepts, the header starts with the magic number of ELF, and the header
-- and the tables are supported: every segment is of a type that is let through, or it is the one DYNAMIC
-- segment, whose offset the image has; no two program headers are of this type; every section is of a
-- type that is let through and ends within the image, as words are added; and a symbol table has a size.
pub try_parse-IsSupported :
    (fuel : ℕ) (mem : ℕ → ℕ) (base length : ℕ)
    → Accepts (IsSupported mem base length) (try_parse fuel mem base length)
unfolding try_parse
try_parse-IsSupported fuel mem base length =
    Accepts-bind (λ _. Header mem base length) (IsSupported mem base length)
      (check_header mem base length) _ (check_header-Header mem base length)
      (λ u header.
        Accepts-bind
          (Segments mem (base + number mem 8 (base + 32)) (number mem 2 (base + 54)) 0
            (number mem 2 (base + 56)) none)
          (IsSupported mem base length)
          (scan_segments mem (base + number mem 8 (base + 32)) (number mem 2 (base + 54)) 0
            (number mem 2 (base + 56)) none)
          _
          (scan_segments-Segments mem (base + number mem 8 (base + 32)) (number mem 2 (base + 54)) 0
            (number mem 2 (base + 56)) none)
          (λ dynamic s.
            Accepts-bind (λ _. Unit {0}) (IsSupported mem base length)
              (read_dynamic fuel mem base dynamic) _
              (Accepts-any (read_dynamic fuel mem base dynamic))
              (λ d w.
                Accepts-bind
                  (λ _.
                    (j : ℕ)
                    → 1 ≤ j
                    → j < 1 + section_rounds (number mem 2 (base + 60))
                    → IsInside mem length
                        (base + number mem 8 (base + 40) + j * number mem 2 (base + 58)))
                  (IsSupported mem base length)
                  (scan_sections mem base length d.symtab (base + number mem 8 (base + 40))
                    (number mem 2 (base + 58)) 1 (section_rounds (number mem 2 (base + 60))) 0)
                  _
                  (scan_sections-IsInside mem base length d.symtab (base + number mem 8 (base + 40))
                    (number mem 2 (base + 58)) 1 (section_rounds (number mem 2 (base + 60))) 0)
                  (λ size inside.
                    Accepts-checked (IsSupported mem base length) (sized d.symtab size)
                      symtab_without_section 0 _
                      (λ e. record {
                        header = header;
                        segments = λ j a. elim (s.supported j (omega arith) (omega (arith, a))) [
                          | inl q ↦ inl q
                          | inr q ↦ inr (q.0, ap (segment_start mem base) (q.1))
                        ];
                        one_dynamic = λ j k a b.
                            s.unique j k (omega arith) (omega (arith, a)) (omega arith)
                              (omega (arith, b));
                        sections = inside;
                        symbols = has_size d.symtab size e;
                      })))))

-- An image whose DYNAMIC segments have an entry of the tag 0 within the number of rounds is accepted or
-- refused: no loop goes on for ever.
pub try_parse-Ends :
    (fuel : ℕ) (mem : ℕ → ℕ) (base length : ℕ)
    → AllTerminated fuel mem base
    → Ends (try_parse fuel mem base length)
unfolding try_parse
try_parse-Ends fuel mem base length h =
    let table : ℕ = base + number mem 8 (base + 32) in
    let size : ℕ = number mem 2 (base + 54) in
    let n : ℕ = number mem 2 (base + 56) in
    Ends-bind (check_header mem base length) _ (check_header-Ends mem base length) (λ u.
      Ends-after (Segments mem table size 0 n none) (scan_segments mem table size 0 n none) _
        (scan_segments-Ends mem table size 0 n none)
        (scan_segments-Segments mem table size 0 n none)
        (λ dynamic s.
          Ends-bind (read_dynamic fuel mem base dynamic) _
            (read_dynamic-Ends fuel mem base dynamic (λ at q. elim (s.found at q) [
              | inl p ↦ let x : ⊥ = ground (arith, p) in elim x [ ]
              | inr p ↦
                  subst
                    (λ a.
                      (k : ℕ) × (k < fuel)
                      × (number mem 8 (base + number mem 8 (a + 8) + 16 * k) ≡ 0))
                    (sym (p.3))
                    (h p.0 (omega (arith, p.2)) (subst (λ a. number mem 4 a ≡ 2) (p.3) (p.4)))
            ]))
            (λ d.
              Ends-bind
                (scan_sections mem base length d.symtab (base + number mem 8 (base + 40))
                  (number mem 2 (base + 58)) 1 (section_rounds (number mem 2 (base + 60))) 0)
                _
                (scan_sections-Ends mem base length d.symtab (base + number mem 8 (base + 40))
                  (number mem 2 (base + 58)) 1 (section_rounds (number mem 2 (base + 60))) 0)
                (λ symtab_size.
                  Ends-checked (sized d.symtab symtab_size) symtab_without_section 0 _ tt))))
