-- ===== src/Util/AvlTree/Links.antt =====
-- The accessors of `_tree_element` in kernel/util/avl_tree.h: the low three bits of the word
-- `tree_parent` hold the balance factor in two's complement, the others the parent's address.
use reaveros.Prelude.{ℕ, ◌+◌, ◌-◌, ◌*◌, ◌/◌, ◌%◌, ◌≤◌, ◌≡◌, arith, ltb, if◌then◌else◌}
use reaveros.Prelude.Int.{ℤ, pos, negsuc, pos_part, neg_part}

-- `reinterpret_cast<std::uintptr_t>(this->tree_parent) & ~0b111`.
pub get_tree_parent : ℕ → ℕ
get_tree_parent w = w / 8 * 8

-- The low three bits, sign extended.
pub get_balance_factor : ℕ → ℤ
get_balance_factor w = if ltb (w % 8) 4 then pos (w % 8) else negsuc (7 - w % 8)

-- `static_cast<std::uintptr_t>(factor) & 0b111`.
abbrev low_bits : ℤ → ℕ
low_bits (pos n) = n % 8
low_bits (negsuc n) = 7 - n % 8

-- The address has its low bits clear, so that `|` adds.
pub set_balance_factor : ℤ → ℕ → ℕ
unfolding get_tree_parent
set_balance_factor b w = get_tree_parent w + low_bits b

pub set_tree_parent : ℕ → ℕ → ℕ
unfolding get_balance_factor set_balance_factor
set_tree_parent parent w = set_balance_factor (get_balance_factor w) parent

-- Where the parent's address is a multiple of 8 and the factor lies between -4 and 3, storing the
-- one keeps the other, and each reads back as it was stored.
pub links_roundtrip :
    (w parent : ℕ) (b : ℤ)
    → parent % 8 ≡ 0
    → pos_part b ≤ 3
    → neg_part b ≤ 4
    → (get_balance_factor (set_balance_factor b w) ≡ b)
      × (get_tree_parent (set_balance_factor b w) ≡ get_tree_parent w)
      × (get_tree_parent (set_tree_parent parent w) ≡ parent)
      × (get_balance_factor (set_tree_parent parent w) ≡ get_balance_factor w)
unfolding set_tree_parent
links_roundtrip w parent (pos n) aligned hi lo = ground arith
links_roundtrip w parent (negsuc n) aligned hi lo = ground arith
