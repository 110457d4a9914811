-- ===== src/Scheduler/Process.antt =====
-- kernel/scheduler/process.h and process.cpp: a process holds handles under tokens, in a tree. The
-- readings of the timer, which the hardware gives, are a function of how many were taken before.
pub mod Table
use Prim.Native.Nat.{bit_xor}
use reaveros.Prelude.{
  ℕ, zero, suc, Bool, true, false, Option, none, some, List, [], ◌∷◌, ◌++◌, ◌==◌, if◌then◌else◌,
}
use reaveros.Prelude.Outcome.{Outcome, done, panic, fault, spin, ◌>>=◌, deref}
use reaveros.Util.AvlTree.Iterator.{Iterator, null, at, element}
use reaveros.Util.AvlTree.Container.{AvlTree}
use reaveros.Util.AvlTree.Container
use reaveros.Util.AvlTree.Keyed.{by_key, key_less, key_greater}
use reaveros.Util.Handle.{Handle}

-- `_handle_store`; `_handle_store_compare` compares the tokens.
pub record HandleStore : Type 0 where
  pub token : ℕ
  pub handle : Handle

pub record Process : Type 0 where
  pub address : ℕ
  pub started : Bool
  pub address_space : ℕ
  pub handles : AvlTree HandleStore

abbrev pub token_of : HandleStore → ℕ
token_of s = s.token

-- `_handles.find(token)`.
unfoldable pub find_token : ℕ → Process → Iterator HandleStore
find_token token p = Container.find (key_less token_of token) (key_greater token_of token) p.handles

abbrev pub is_end : Iterator HandleStore → Bool
is_end null = true
is_end (at l a b r p) = false

unfoldable pub get_handle : ℕ → Process → Option Handle
get_handle token p = elim (element (find_token token p)) [ none ↦ none | some s ↦ some s.handle ]

-- The token that `register_for_token` tries when it reads the time `now`.
abbrev pub token_at : Process → Handle → ℕ → ℕ
token_at p h now = bit_xor (bit_xor p.address h.address) now

-- The loop that looks for an unused token, and the number of readings that it has taken.
unfoldable pub choose_token : (ℕ → ℕ) → ℕ → ℕ → Handle → Process → Outcome (ℕ × ℕ)
choose_token clock zero i h p = spin
choose_token clock (suc fuel) i h p = elim (is_end (find_token (token_at p h (clock i)) p)) [
  | true ↦ done (token_at p h (clock i), suc i)
  | false ↦ choose_token clock fuel (suc i) h p
]

-- The insertion; a refused one is a panic.
unfoldable pub store_handle : ℕ → Handle → Process → Outcome Process
store_handle token h p =
    deref (Container.insert (by_key token_of) (record { token = token; handle = h }) p.handles)
    >>= λ r. if r.inserted then done (record p { handles = r.tree }) else panic

pub record Registered : Type 0 where
  pub process : Process
  pub token : ℕ
  pub readings : ℕ

unfoldable pub register_for_token : (ℕ → ℕ) → ℕ → ℕ → Handle → Process → Outcome Registered
register_for_token clock fuel i h p = choose_token clock fuel i h p >>= λ (token, j).
    store_handle token h p >>= λ q. done (record { process = q; token = token; readings = j })

-- `erase(it)` at the place that `find` gave.
unfoldable pub erase_at : Iterator HandleStore → Process → Outcome Process
erase_at null p = panic
erase_at (at l a b r q) p =
    deref (Container.erase (at l a b r q) p.handles) >>= λ e. done (record p { handles = e.tree })

unfoldable pub unregister_token : ℕ → Process → Outcome Process
unregister_token token p = erase_at (find_token token p) p
