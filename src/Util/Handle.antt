-- ===== src/Util/Handle.antt =====
-- kernel/util/handle.h: a handle is a payload of some type with a set of permissions, a bit mask.
-- Its address is what `register_for_token` mixes into the token.
use Prim.Native.Nat.{bit_and}
use reaveros.Prelude.{ℕ, Bool, ◌==◌}

pub record Handle : Type 0 where
  pub address : ℕ
  pub kind : ℕ
  pub payload : ℕ
  pub permissions : ℕ

unfoldable pub is_a : ℕ → Handle → Bool
is_a kind h = h.kind == kind

unfoldable pub has_permissions : ℕ → Handle → Bool
has_permissions permissions h = bit_and permissions h.permissions == permissions
