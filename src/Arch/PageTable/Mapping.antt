-- ===== src/Arch/PageTable/Mapping.antt =====
-- What a mapping of kernel/arch/amd64/memory/vm.cpp does to the translation of addresses.
use reaveros.Prelude.{ℕ, ◌+◌, ◌-◌, ◌*◌, ◌/◌, ◌%◌, ◌^◌, ◌≤◌, ◌<◌, ◌≡◌, ap, Option, none, some, arith}
use reaveros.Arch.PageTable.{Table, virt_to_phys}
use reaveros.Arch.PageTable.Steps.{Meets, Covers}
use reaveros.Arch.PageTable.Change.{IsChanged}

-- The physical addresses for a range, of whole pages.
abbrev pub mapped_to : ℕ → ℕ → ℕ → Option ℕ
mapped_to v phys x = some (phys + (x / 4096 * 4096 - v))

-- In the part of the address space that the table covers with `o`, the range is mapped, and all else
-- is as it was.
abbrev pub IsMapped : ℕ → ℕ → ℕ → ℕ → ℕ → Table → Table → Type 0
IsMapped l o v vend phys t t' = IsChanged l o v vend (mapped_to v phys) t t'

-- No address of the range is mapped.
abbrev pub IsUnmapped : ℕ → ℕ → ℕ → Table → Type 0
IsUnmapped l v vend t = (x : ℕ) → v ≤ x → x < vend → virt_to_phys l t x ≡ none

-- A range in the table with `o`, and the physical addresses for it.
pub record Fits (l o v vend phys : ℕ) : Type 0 where
  pub here : Covers l o v
  pub covers : (x : ℕ) → v ≤ x → x < vend → Covers l o x
  pub room : phys + (vend - v) ≤ 2 ^ 52
  pub aligned : phys % 4096 ≡ 0
  pub meets : (k : ℕ) → k ≤ l → Meets k v vend phys

-- The rest of a range.
pub mapped_to-agree :
    (v vend e phys : ℕ)
    → v < e
    → e % 4096 ≡ 0
    → (x : ℕ) → e ≤ x
    → x < vend
    → mapped_to e (phys + (e - v)) x ≡ mapped_to v phys x
mapped_to-agree v vend e phys lt z x a b = ap some (omega arith)
