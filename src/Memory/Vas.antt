-- ===== src/Memory/Vas.antt =====
-- kernel/memory/vas.h, vas.cpp and vmo_mapping.h: the address spaces, and the mappings of memory objects
-- in them. An object is told by its address; the tables are those of the address space's root. The
-- frames of new page tables, which `map_physical` takes from the same allocator, are taken to be had,
-- but `mapping_create` takes them. The locks make each call one step.
pub mod Ranges
pub mod Mapped
pub mod Pages
pub mod Created
pub mod Release
mod Tests
use reaveros.Prelude.{
  ℕ, zero, suc, ◌+◌, ◌*◌, ◌-◌, ◌%◌, ◌^◌, Bool, true, false, Option, none, some, List, [], ◌∷◌, ◌==◌,
  leb, if◌then◌else◌, ◌&&◌, not,
}
use reaveros.Prelude.Outcome.{Outcome, done, panic, ◌>>=◌, deref}
use reaveros.Util.AvlTree.Iterator.{Iterator, null, at, element}
use reaveros.Util.AvlTree.Container.{AvlTree, empty, find, insert}
use reaveros.Arch.PageTable.{Entry, Table, map_physical}
use reaveros.Memory.Pmm.{State, page_sizes, pop}
use reaveros.Memory.Vmo.{Element, VmoState, physical, sparse, Vmo, commit_all}

-- `flags` of kernel/memory/vm.h.
pub record Flags : Type 0 where
  pub user : Bool
  pub read_only : Bool

-- `vmo_mapping`, with its `address_range`.
pub record VmoMapping : Type 0 where
  pub start : ℕ
  pub end : ℕ
  pub object : ℕ
  pub mapping_flags : Flags

pub record Vas : Type 0 where
  pub table : Table
  pub was_claimed_for_process : Bool
  pub mappings : AvlTree VmoMapping
  pub vdso_mapping : Option VmoMapping

-- `vmo_mapping_address_compare`: of two mappings, and of a range and a mapping.
abbrev pub precedes : VmoMapping → VmoMapping → Bool
precedes a b = leb a.end b.start

abbrev pub range_precedes : ℕ → ℕ → VmoMapping → Bool
range_precedes start end m = leb end m.start

abbrev pub precedes_range : ℕ → ℕ → VmoMapping → Bool
precedes_range start end m = leb m.end start

-- `_mappings.find` of a range.
abbrev pub find_mapping : ℕ → ℕ → Vas → Iterator VmoMapping
find_mapping start end v = find (range_precedes start end) (precedes_range start end) v.mappings

-- `adopt_existing_asid`.
abbrev pub adopt_existing_asid : Table → Vas
adopt_existing_asid table = record {
  table = table;
  was_claimed_for_process = false;
  mappings = empty;
  vdso_mapping = none;
}

-- `claim_for_process`.
abbrev pub claim_for_process : Vas → Bool × Vas
claim_for_process v =
    if v.was_claimed_for_process
    then (false, v)
    else (true, record v { was_claimed_for_process = true })

-- The loop of `map_vmo` over the elements.
unfoldable pub map_elements : ℕ → ℕ → Bool → List Element → Table → Outcome Table
map_elements page_size mapping_base user [] t = done t
map_elements page_size mapping_base user (e ∷ es) t = elim e.backing_address [
  | none ↦ panic
  | some frame ↦
      map_physical ((mapping_base + e.offset) % 2 ^ 64)
        ((mapping_base + e.offset + page_size) % 2 ^ 64) frame user t
      >>= λ u. map_elements page_size mapping_base user es u
]

-- The switch on the type.
unfoldable pub map_object : Vmo → ℕ → Bool → Table → Outcome Table
unfolding map_elements
map_object object mapping_base user t = elim object.state [
  | physical base ↦ map_physical mapping_base ((mapping_base + object.length) % 2 ^ 64) base user t
  | sparse elements ↦
      map_elements (page_sizes object.aligned_to_page_level) mapping_base user elements t
]

-- `get_vdso_vmo` with the address of the object that has been set.
abbrev pub get_vdso_vmo : Option ℕ → Outcome ℕ
get_vdso_vmo none = panic
get_vdso_vmo (some vdso) = done vdso

-- The first mapping of the vDSO is kept.
abbrev pub keep_vdso : Option ℕ → VmoMapping → Vas → Outcome Vas
keep_vdso vdso_vmo mapping v = elim v.vdso_mapping [
  | some kept ↦ done v
  | none ↦ get_vdso_vmo vdso_vmo >>= λ vdso.
      done (if mapping.object == vdso then (record v { vdso_mapping = some mapping }) else v)
]

-- The mapping that `map_vmo` makes.
abbrev pub mapping_of : ℕ → Vmo → ℕ → Flags → VmoMapping
mapping_of address object mapping_base flags = record {
  start = mapping_base;
  end = (mapping_base + object.length) % 2 ^ 64;
  object = address;
  mapping_flags = flags;
}

-- `map_vmo` of the object at an address.
unfoldable pub map_vmo : Option ℕ → ℕ → Vmo → ℕ → Flags → Vas → Outcome (VmoMapping × Vas)
unfolding map_object
map_vmo vdso_vmo address object mapping_base flags v =
    if not (mapping_base % page_sizes object.aligned_to_page_level == 0)
    then panic
    else let mapping = mapping_of address object mapping_base flags in
      elim (element (find_mapping mapping.start mapping.end v)) [
        | some m ↦ panic
        | none ↦ deref (insert precedes mapping v.mappings) >>= λ r.
            map_object object mapping_base flags.user v.table >>= λ t.
            keep_vdso vdso_vmo mapping (record v { table = t; mappings = r.tree }) >>= λ w.
            done (mapping, w)
      ]

-- `lock_address_range`, with the mapping whose lock is returned, from what is found on.
abbrev pub lock_found : Bool → Option VmoMapping → Option VmoMapping
lock_found rw none = none
lock_found rw (some m) = if rw && m.mapping_flags.read_only then none else some m

unfoldable pub lock_address_range : ℕ → ℕ → Bool → Vas → Option VmoMapping
lock_address_range start end rw v = lock_found rw (element (find_mapping start end v))

-- `create_vas` with the tables that `clone_upper_half` gives, and `generate_vdso_mapping_base`; the
-- vDSO is the object at an address.
unfoldable pub create_vas : Table → Option (ℕ × Vmo) → Bool → Outcome Vas
unfolding map_vmo
create_vas table vdso randomly_map_vdso =
    if not randomly_map_vdso then done (adopt_existing_asid table) else elim vdso [
      | none ↦ panic
      | some (address, object) ↦
          map_vmo (some address) address object
            ((0x800000000000 + (2 ^ 64 - object.length * 2 % 2 ^ 64)) % 2 ^ 64)
            (record { user = true; read_only = false }) (adopt_existing_asid table)
          >>= λ (m, v). done v
    ]

-- `get_vdso_base`.
abbrev pub get_vdso_base : Vas → Option ℕ
get_vdso_base v = elim v.vdso_mapping [ none ↦ none | some m ↦ some m.start ]

-- The tables that a table of a level has below it.
abbrev pub tables_below : (Table → ℕ) → Entry → ℕ
tables_below count Entry.absent = 0
tables_below count (Entry.page frame user) = 0
tables_below count (Entry.table user t) = suc (count t)

unfoldable pub sum_entries : (Entry → ℕ) → ℕ → Table → ℕ
sum_entries f zero t = 0
sum_entries f (suc i) t = f (t i) + sum_entries f i t

unfoldable pub count_tables : ℕ → Table → ℕ
unfolding sum_entries
count_tables zero t = 0
count_tables (suc l) t = sum_entries (tables_below (count_tables l)) 512 t

-- How often `vm_map` has come to `new pmlt`, which it does where there is no table yet.
abbrev pub new_tables : Table → Table → ℕ
new_tables before after = count_tables 3 after - count_tables 3 before

-- `pmlt::operator new`, for a number of tables.
unfoldable pub take_tables : ℕ → State → Outcome State
take_tables zero s = done s
take_tables (suc n) s = pop 0 s >>= λ (frame, t). take_tables n t

-- The result of `mapping_create`: the mapping, the object, the address space and the free frames.
pub record Creation : Type 0 where
  pub mapping : VmoMapping
  pub object : Vmo
  pub vas : Vas
  pub frames : State

-- `syscall_rose_mapping_create_handler` up to the handle of the mapping: the object at an address is
-- committed and mapped. The frames of the new page tables are taken at the end here.
unfoldable pub mapping_create : ℕ → Option ℕ → ℕ → Vmo → ℕ → ℕ → Vas → State → Outcome Creation
unfolding commit_all map_vmo take_tables
mapping_create fuel vdso_vmo id object address flags v s =
    if not (flags == 0)
    then panic
    else commit_all fuel object s >>= λ (committed, t).
        map_vmo vdso_vmo id committed address (record { user = true; read_only = false }) v
        >>= λ (m, w). take_tables (new_tables v.table w.table) t >>= λ u.
            done (record { mapping = m; object = committed; vas = w; frames = u })
