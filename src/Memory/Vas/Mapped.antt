-- ===== src/Memory/Vas/Mapped.antt =====
-- What `map_vmo` of kernel/memory/vas.cpp does.
use reaveros.Prelude.{
  ℕ, ◌+◌, ◌-◌, ◌*◌, ◌/◌, ◌%◌, ◌^◌, ◌<◌, ◌≡◌, refl, sym, subst, inl, inr, Bool, Option, some, List,
  arith, length, All, Option-cases, ◌==◌, Bool-cases,
}
use reaveros.Prelude.Outcome.{done, panic, ◌>>=◌, deref, Yields, Yields-bind, Yields-deref}
use reaveros.Util.AvlTree.Iterator.{element}
use reaveros.Util.AvlTree.Elements.{elements}
use reaveros.Util.AvlTree.Container.{insert, Inserting}
use reaveros.Arch.PageTable.{Table}
use reaveros.Arch.PageTable.Change.{IsChanged}
use reaveros.Arch.PageTable.Mapping.{IsUnmapped}
use reaveros.Memory.Pmm.{page_sizes}
use reaveros.Memory.Vmo.{sparse, Vmo}
use reaveros.Memory.Vmo.Commit.{backed}
use reaveros.Memory.Vas.{
  Flags, VmoMapping, Vas, precedes, find_mapping, mapping_of, map_elements, map_object, keep_vdso,
  map_vmo,
}
use reaveros.Memory.Vas.Ranges.{
  IsApart, Placed, Disjoint, find_mapping-none, find_mapping-IsApart, insert-Disjoint,
}
use reaveros.Memory.Vas.Pages.{IsFrame, frame_at, map_elements_lem}

-- Where the mappings of the address space are ordered and apart, a range that overlaps one of them is
-- refused by a panic, whatever the object and its alignment.
pub map_vmo_occupied :
    (vdso_vmo : Option ℕ) (address : ℕ) (object : Vmo) (base : ℕ) (flags : Flags) (v : Vas)
    → Disjoint v.mappings
    → (All (IsApart base ((base + object.length) % 2 ^ 64)) (elements v.mappings.root) → ⊥)
    → map_vmo vdso_vmo address object base flags v ≡ panic
unfolding map_vmo
map_vmo_occupied vdso_vmo address object base flags v d n =
    elim (Option-cases (element (find_mapping base ((base + object.length) % 2 ^ 64) v))) [
      | inl y ↦ elim (n (find_mapping-IsApart base ((base + object.length) % 2 ^ 64) v d y)) [ ]
      | inr y ↦ elim (Bool-cases (base % page_sizes object.aligned_to_page_level == 0)) [
        | inl z ↦ rw (y.1, z) refl
        | inr z ↦ rw z refl
      ]
    ]

-- An object with a frame for each of its pages.
abbrev pub committed : List ℕ → Vmo
committed fs = record {
  state = sparse (backed 4096 0 fs);
  length = length fs * 4096;
  aligned_to_page_level = 0;
}

-- The mapping is in its place among the others, and its pages are mapped to the frames.
pub record IsMapping (base end : ℕ) (fs : List ℕ) (x : VmoMapping) (v w : Vas) : Type 0 where
  pub mappings : Disjoint w.mappings
  pub placed : Placed x (elements v.mappings.root) (elements w.mappings.root)
  pub pages : IsChanged 3 base base end (frame_at base fs) v.table w.table

-- The vDSO's mapping is noted, and nothing else.
keep_vdso-Keeps :
    (vdso : ℕ) (x : VmoMapping) (v : Vas)
    → Yields (λ w. (w.mappings ≡ v.mappings) × (w.table ≡ v.table)) (keep_vdso (some vdso) x v)
keep_vdso-Keeps vdso x v = elim (Option-cases v.vdso_mapping) [
  | inl y ↦ elim (Bool-cases (x.object == vdso)) [
    | inl z ↦ rw (y, z) (refl, refl)
    | inr z ↦ rw (y, z) (refl, refl)
  ]
  | inr y ↦ rw (y.1) (refl, refl)
]

-- The tables and the tree after the checks of `map_vmo`.
map_vmo-run :
    (vdso_vmo : Option ℕ) (address : ℕ) (object : Vmo) (base : ℕ) (flags : Flags) (v : Vas)
    → base % page_sizes object.aligned_to_page_level ≡ 0
    → All (IsApart base ((base + object.length) % 2 ^ 64)) (elements v.mappings.root)
    → map_vmo vdso_vmo address object base flags v ≡ (
        deref (insert precedes (mapping_of address object base flags) v.mappings) >>= λ r.
        map_object object base flags.user v.table >>= λ t.
        keep_vdso vdso_vmo
          (mapping_of address object base flags)
          (record v { table = t; mappings = r.tree })
        >>= λ w. done (mapping_of address object base flags, w))
unfolding map_vmo
map_vmo-run vdso_vmo address object base flags v a h =
    rw (a, find_mapping-none base ((base + object.length) % 2 ^ 64) v h) refl

map_object-committed :
    (fs : List ℕ) (base : ℕ) (user : Bool) (t : Table)
    → map_object (committed fs) base user t ≡ map_elements 4096 base user (backed 4096 0 fs) t
unfolding map_object
map_object-committed fs base user t = refl

pub map_vmo-IsMapping :
    (vdso address : ℕ) (fs : List ℕ) (base end : ℕ) (flags : Flags) (v : Vas)
    → end ≡ base + length fs * 4096
    → base % 4096 ≡ 0
    → base < end
    → end + 4095 < 2 ^ 64
    → base / 2 ^ 48 ≡ (end - 1) / 2 ^ 48
    → All IsFrame fs
    → Disjoint v.mappings
    → All (IsApart base end) (elements v.mappings.root)
    → IsUnmapped 3 base end v.table
    → Yields
        (λ r.
          (r.0 ≡ mapping_of address (committed fs) base flags) × IsMapping base end fs r.0 v r.1)
        (map_vmo (some vdso) address (committed fs) base flags v)
map_vmo-IsMapping vdso address fs base end flags v e a lt top half f d apart un =
    let x = mapping_of address (committed fs) base flags in
    let q : (base + length fs * 4096) % 2 ^ 64 ≡ end = omega (arith, e, top) in
    let apart' = subst (λ n. All (IsApart base n) (elements v.mappings.root)) (sym q) apart in
    let goal : VmoMapping × Vas → Type 0 = λ r. (r.0 ≡ x) × IsMapping base end fs r.0 v r.1 in
    subst (Yields goal) (sym (map_vmo-run (some vdso) address (committed fs) base flags v a apart'))
      (Yields-bind
        (λ (r : Inserting VmoMapping).
          Disjoint r.tree × Placed x (elements v.mappings.root) (elements r.tree.root))
        goal (deref (insert precedes x v.mappings)) _
        (Yields-deref _ (insert precedes x v.mappings)
          (insert-Disjoint x v.mappings d apart' (omega (arith, q, lt))))
        (λ r k.
          Yields-bind (IsChanged 3 base base end (frame_at base fs) v.table) goal
            (map_object (committed fs) base flags.user v.table) _
            (subst (Yields (IsChanged 3 base base end (frame_at base fs) v.table))
              (sym (map_object-committed fs base flags.user v.table))
              (map_elements_lem fs base base 0 base end flags.user v.table (omega arith) e a top
                (λ x b c. omega (arith, b, c, half)) f un))
            (λ t c.
              Yields-bind (λ w. (w.mappings ≡ r.tree) × (w.table ≡ t)) goal
                (keep_vdso (some vdso) x (record v { table = t; mappings = r.tree })) _
                (keep_vdso-Keeps vdso x (record v { table = t; mappings = r.tree }))
                (λ w g. (
                  refl,
                  record {
                    mappings = subst Disjoint (sym (g.0)) (k.0);
                    placed =
                        subst (λ s. Placed x (elements v.mappings.root) (elements s.root))
                          (sym (g.0)) (k.1);
                    pages =
                        subst (IsChanged 3 base base end (frame_at base fs) v.table) (sym (g.1)) c;
                  },
                )))))
