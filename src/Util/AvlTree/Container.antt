-- ===== src/Util/AvlTree/Container.antt =====
-- The class `avl_tree` of kernel/util/avl_tree.h: `_root` and `_size` (a `std::size_t`, so that it
-- wraps at 2^64) under `insert`, `find` and the three overloads of `erase`.
pub mod Laws
use reaveros.Prelude.{ℕ, ◌+◌, ◌-◌, ◌%◌, ◌^◌, Bool, true, false, Option, none, some, ◌>>=◌}
use reaveros.Prelude.Int.{ℤ}
use reaveros.Util.AvlTree.{Tree, leaf}
use reaveros.Util.AvlTree.Iterator.{Iterator, null, at, element, increment}
use reaveros.Util.AvlTree.Search
use reaveros.Util.AvlTree.Insert
use reaveros.Util.AvlTree.Erase.{unlink}

pub record AvlTree {ℓ} (A : Type ℓ) : Type ℓ where
  pub root : Tree A
  pub size : ℕ

-- `++_size` and `--_size`.
abbrev size_inc : ℕ → ℕ
size_inc n = (n + 1) % 2 ^ 64

abbrev size_dec : ℕ → ℕ
size_dec n = (n + (2 ^ 64 - 1)) % 2 ^ 64

-- What `insert` returns beside the tree: the element of the iterator, and whether it was inserted.
pub record Inserting {ℓ} (A : Type ℓ) : Type ℓ where
  pub tree : AvlTree A
  pub position : A
  pub inserted : Bool

-- What `erase` returns beside the tree: the element of the iterator, if it is not `end()`.
pub record Erasing {ℓ} (A : Type ℓ) : Type ℓ where
  pub tree : AvlTree A
  pub next : Option A

module _ {ℓ} {A : Type ℓ} where
  unfoldable pub empty : AvlTree A
  empty = record { root = leaf; size = 0 }

  unfoldable pub find : (less greater : A → Bool) → AvlTree A → Iterator A
  find less greater s = Search.find less greater s.root

  unfoldable pub insert : (A → A → Bool) → A → AvlTree A → Option (Inserting A)
  insert comp x s = Insert.insert comp x s.root >>= λ r. some (record {
    tree = record {
      root = r.root;
      size = elim r.inserted [ true ↦ size_inc s.size | false ↦ s.size ];
    };
    position = r.position;
    inserted = r.inserted;
  })

  -- `erase(iterator)` and `erase(T *)`; the tree is the one that the iterator stands in.
  unfoldable pub erase : Iterator A → AvlTree A → Option (Erasing A)
  erase null s = none
  erase (at l a b r p) s = do
    next ← increment (at l a b r p)
    root ← unlink l b r p
    some (record { tree = record { root = root; size = size_dec s.size }; next = element next })

  -- `erase(const Key &)`: it erases what `find` returns, `end()` included.
  unfoldable pub erase_key : (less greater : A → Bool) → AvlTree A → Option (Erasing A)
  erase_key less greater s = erase (find less greater s) s
