-- ===== src/Elf/Tests.antt =====
-- A run of libraries/elf/src/elf.cpp.
use reaveros.Prelude.{ℕ, zero, suc, ◌≡◌, refl, some, List, [], ◌∷◌, arith, ◌==◌, if◌then◌else◌}
use reaveros.Elf.{Image, accepted, refused, no_tables, section_beyond, try_parse}
use reaveros.Elf.Steps.{Accepts, Ends}
use reaveros.Elf.Accepted.{AllTerminated, IsSupported, try_parse-IsSupported, try_parse-Ends}

abbrev bytes_of : List (ℕ × ℕ) → ℕ → ℕ
bytes_of [] a = 0
bytes_of (p ∷ ps) a = if p.0 == a then p.1 else bytes_of ps a

-- A header, a DYNAMIC segment without entries, and a section without contents; all else is 0.
abbrev file : List (ℕ × ℕ)
file =
    (0, 127)
    ∷ (1, 69)
    ∷ (2, 76)
    ∷ (3, 70)
    ∷ (4, 2)
    ∷ (5, 1)
    ∷ (16, 2)
    ∷ (18, 62)
    ∷ (20, 1)
    ∷ (32, 64)
    ∷ (40, 120)
    ∷ (54, 56)
    ∷ (56, 1)
    ∷ (58, 64)
    ∷ (60, 2)
    ∷ (64, 2)
    ∷ (72, 248)
    ∷ (188, 1)
    ∷ []

accepted_run :
    try_parse 1 (bytes_of file) 0 264
    ≡ accepted (record { dynamic_base = some 248; tables = no_tables; symtab_size = 0 })
unfolding try_parse reaveros.Elf.check_header reaveros.Elf.scan_segments reaveros.Elf.segment_step
    reaveros.Elf.read_dynamic reaveros.Elf.scan_dynamic reaveros.Elf.scan_sections
    reaveros.Elf.section_step
accepted_run = refl

try_parse-IsSupported_example :
    Accepts (IsSupported (bytes_of file) 0 264) (try_parse 1 (bytes_of file) 0 264)
try_parse-IsSupported_example = try_parse-IsSupported 1 (bytes_of file) 0 264

terminated : AllTerminated 1 (bytes_of file) 0
terminated zero a e = (0, omega arith, refl)
terminated (suc j) a e = let x : ⊥ = omega (arith, a) in elim x [ ]

try_parse-Ends_example : Ends (try_parse 1 (bytes_of file) 0 264)
try_parse-Ends_example = try_parse-Ends 1 (bytes_of file) 0 264 terminated

-- A section that takes no space in the file is refused for the end that it would have there.
large_bss_run : try_parse 1 (bytes_of ((188, 8) ∷ (217, 2) ∷ file)) 0 264 ≡ refused section_beyond 0
unfolding try_parse reaveros.Elf.check_header reaveros.Elf.scan_segments reaveros.Elf.segment_step
    reaveros.Elf.read_dynamic reaveros.Elf.scan_dynamic reaveros.Elf.scan_sections
    reaveros.Elf.section_step
large_bss_run = refl
