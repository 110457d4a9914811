-- ===== src/Util/AvlTree/Tests.antt =====
-- Runs of kernel/util/avl_tree.h on small trees of numbers.
use reaveros.Prelude.{
  ℕ, ◌≡◌, ◌≤◌, refl, true, false, none, some, [], ◌∷◌, arith, ltb, length, if◌then◌else◌, Returns,
}
use reaveros.Prelude.Int.{pos, negsuc}
use reaveros.Util.AvlTree.{Tree, leaf, node, left_of, right_of, plug, rebalance_right}
use reaveros.Util.AvlTree.Iterator.{null, at, element, increment, decrement}
use reaveros.Util.AvlTree.Search.{lower_bound, upper_bound}
use reaveros.Util.AvlTree.Search
use reaveros.Util.AvlTree.Insert
use reaveros.Util.AvlTree.Erase.{unlink, replace_by_right}
use reaveros.Util.AvlTree.Elements.{elements}
use reaveros.Util.AvlTree.Balance.{IsBalanced}
use reaveros.Util.AvlTree.Balance.Inserting.{insert-IsBalanced}
use reaveros.Util.AvlTree.Balance.Erasing.{unlink-IsBalanced, unlink-needs_double}
use reaveros.Util.AvlTree.Order.{IsSorted, insert_sorted}
use reaveros.Util.AvlTree.Lookup.{element-find, first_equal}
use reaveros.Util.AvlTree.Traversal.{
  remaining, remaining-begin, remaining-increment, decrement_no_left,
}
use reaveros.Util.AvlTree.Iterator.{begin}
use reaveros.Util.AvlTree.Container.{AvlTree, insert, erase, erase_key}
use reaveros.Util.AvlTree.Container.Laws.{IsValid, insert-IsValid, erase-IsValid, erase_key-absent}
use reaveros.Util.AvlTree.Keyed.{by_key, key_less, key_greater, by_key-IsOrder, key-IsCut}
use reaveros.Util.AvlTree.Check.{check_invariants, check_invariants_lem}
use reaveros.Util.AvlTree.Links.{get_tree_parent, set_tree_parent, links_roundtrip}
use reaveros.Util.AvlTree.Links
use reaveros.Util.AvlTree.Destroy.{destroy, destroy_lem}

abbrev same : ℕ → ℕ
same n = n

abbrev single : ℕ → Tree ℕ
single n = node leaf n (pos 0) leaf

abbrev lean : Tree ℕ
lean = node leaf 20 (pos 1) (single 30)

abbrev lean_set : AvlTree ℕ
lean_set = record { root = lean; size = 2 }

lean-IsValid : IsValid (by_key same) lean_set
lean-IsValid = record { balanced = ground arith; sorted = ((refl, tt), (tt, tt)); counted = refl }

-- 20 at the root, which leans to the left; its left child 10 leans to the right.
abbrev bent : Tree ℕ
bent = node (node leaf 10 (pos 1) (single 15)) 20 (negsuc 0) (single 30)

abbrev full : AvlTree ℕ
full = record { root = bent; size = 4 }

full-IsValid : IsValid (by_key same) full
full-IsValid = record {
  balanced = ground arith;
  sorted = ((refl, (refl, (refl, tt))), ((refl, (refl, tt)), ((refl, tt), (tt, tt))));
  counted = refl;
}

-- The third element in order turns the tree to the left.
insert_rotates :
    Insert.insert ltb 40 lean
    ≡ some
        (record { root = node (single 20) 30 (pos 0) (single 40); position = 40; inserted = true })
unfolding Insert.insert Insert.insert_from Insert.insert_rebalance Insert.grown_right plug
insert_rotates = refl

insert_equal :
    Insert.insert ltb 30 lean ≡ some (record { root = lean; position = 30; inserted = false })
unfolding Insert.insert Insert.insert_from plug
insert_equal = refl

insert-IsValid_example :
    Returns
      (λ r.
        IsValid (by_key same) r.tree
        × (elements r.tree.root ≡ insert_sorted (by_key same) 40 (elements lean))
        × (length (elements r.tree.root) ≡ (if r.inserted then 3 else 2)))
      (insert (by_key same) 40 lean_set)
insert-IsValid_example = insert-IsValid (by_key same) (by_key-IsOrder same) 40 lean_set lean-IsValid

-- The left child of the root is erased, and its right child takes its place.
erase-IsValid_example :
    Returns
      (λ e.
        IsValid (by_key same) e.tree
        × (elements e.tree.root ≡ 15 ∷ 20 ∷ 30 ∷ [])
        × (e.next ≡ some 15)
        × (elements bent ≡ 10 ∷ 15 ∷ 20 ∷ 30 ∷ []))
      (erase (at leaf 10 (pos 1) (single 15) (left_of 20 (negsuc 0) (single 30) ∷ [])) full)
erase-IsValid_example =
    erase-IsValid (by_key same) leaf 10 (pos 1) (single 15) (left_of 20 (negsuc 0) (single 30) ∷ [])
      full full-IsValid (unfold plug in refl) refl

erase_key-absent_run : erase_key (key_less same 12) (key_greater same 12) full ≡ none
erase_key-absent_run =
    erase_key-absent (by_key same) (key_less same 12) (key_greater same 12) full (key-IsCut same 12)
      full-IsValid.sorted (unfold first_equal in refl)

insert-IsBalanced_run : Returns (λ i. IsBalanced i.root) (Insert.insert (by_key same) 17 bent)
insert-IsBalanced_run = insert-IsBalanced (by_key same) 17 bent full-IsValid.balanced

unlink-IsBalanced_run : Returns IsBalanced (unlink leaf (pos 1) (single 30) [])
unlink-IsBalanced_run =
    unlink-IsBalanced leaf 20 (pos 1) (single 30) [] lean-IsValid.balanced tt refl

unlink-needs_double_example :
    Returns
      (λ t. ¬ IsBalanced t)
      (unlink (node leaf 10 (pos 1) (single 15)) (negsuc 0) (single 30) [])
unlink-needs_double_example =
    unlink-needs_double (node leaf 10 (pos 1) (single 15)) 20 (negsuc 0) (single 30) []
      full-IsValid.balanced refl

-- What is left of `bent` without its root: 10 is at the top with nothing on its left.
unlink_bent :
    unlink (node leaf 10 (pos 1) (single 15)) (negsuc 0) (single 30) []
    ≡ some (node leaf 10 (pos 0) (node (single 15) 30 (pos 0) leaf))
unfolding unlink replace_by_right rebalance_right
unlink_bent = refl

element-find_example : element (Search.find (key_less same 15) (key_greater same 15) bent) ≡ some 15
unfolding first_equal
element-find_example =
    element-find (key_less same 15) (key_greater same 15) (by_key same) (key-IsCut same 15) bent
      full-IsValid.sorted

-- 20 is the first element that is not below 17; `lower_bound` misses it.
lower_bound_misses : lower_bound (key_less same 17) (key_greater same 17) bent ≡ null
unfolding lower_bound
lower_bound_misses = refl

lower_bound_finds : element (lower_bound (key_less same 12) (key_greater same 12) bent) ≡ some 15
unfolding lower_bound
lower_bound_finds = refl

upper_bound_steps :
    Returns (λ i. element i ≡ some 30) (upper_bound (key_less same 20) (key_greater same 20) bent)
unfolding upper_bound increment
upper_bound_steps = refl

remaining-begin_run : remaining (begin bent) ≡ 10 ∷ 15 ∷ 20 ∷ 30 ∷ []
remaining-begin_run = remaining-begin bent

remaining-increment_run :
    Returns
      (λ i. 15 ∷ remaining i ≡ 15 ∷ 20 ∷ 30 ∷ [])
      (increment (
        at leaf 15
          (pos 0)
          leaf
          (right_of leaf 10 (pos 1) ∷ left_of 20 (negsuc 0) (single 30) ∷ [])))
remaining-increment_run =
    remaining-increment leaf 15 (pos 0) leaf
      (right_of leaf 10 (pos 1) ∷ left_of 20 (negsuc 0) (single 30) ∷ [])

decrement_no_left_run :
    Returns
      (λ i. length {A = ℕ} (remaining i) ≤ 1)
      (decrement (at leaf 30 (pos 0) leaf (right_of leaf 20 (pos 1) ∷ [])))
decrement_no_left_run = decrement_no_left 30 (pos 0) leaf (right_of leaf 20 (pos 1) ∷ []) (λ e. cc)

check_invariants_lem_run :
    (IsBalanced bent × IsSorted (by_key same) (elements bent)
      → (check_invariants (by_key same) bent).correct ≡ true)
    × ((check_invariants (by_key same) bent).correct ≡ true → IsBalanced bent)
check_invariants_lem_run = check_invariants_lem (by_key same) bent

links_roundtrip_run :
    (Links.get_balance_factor (Links.set_balance_factor (negsuc 0) 4097) ≡ negsuc 0)
    × (get_tree_parent (Links.set_balance_factor (negsuc 0) 4097) ≡ get_tree_parent 4097)
    × (get_tree_parent (set_tree_parent 8192 4097) ≡ 8192)
    × (Links.get_balance_factor (set_tree_parent 8192 4097) ≡ Links.get_balance_factor 4097)
links_roundtrip_run = links_roundtrip 4097 8192 (negsuc 0) refl (omega arith) (omega arith)

destroy_lem_run : destroy 9 bent ≡ some (10 ∷ 15 ∷ 20 ∷ [])
destroy_lem_run = destroy_lem 9 bent (omega arith)
