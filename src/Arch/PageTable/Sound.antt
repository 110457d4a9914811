-- ===== src/Arch/PageTable/Sound.antt =====
-- The mapping of a range by kernel/arch/amd64/memory/vm.cpp, over all levels of the page tables.
use reaveros.Prelude.{
  ℕ, zero, suc, ◌+◌, ◌-◌, ◌*◌, ◌/◌, ◌%◌, ◌^◌, ◌≤◌, ◌<◌, ◌≡◌, refl, sym, ◌∙◌, subst, Bool,
  Bool-cases, arith, ==-false, ltb, ◌||◌, inl, inr,
}
use reaveros.Prelude.Outcome.{Yields, Yields-bind}
use reaveros.Arch.PageTable.{
  Entry, absent, page, table, Table, empty_table, table_index, entry_end, next_phys, frame_of,
  set_entry, rounds, vm_map, walk, virt_to_phys, map_physical,
}
use reaveros.Arch.PageTable.Steps.{Meets, Covers, Fuelled-start, entry_end-IsStep}
use reaveros.Arch.PageTable.Change.{IsEntry, IsChanged-empty, table-IsEntry, virt-below}
use reaveros.Arch.PageTable.Mapping.{mapped_to, IsMapped, IsUnmapped}
use reaveros.Arch.PageTable.Ready.{Ready, Ready-step, Ready-below, IsUnmapped-step}
use reaveros.Arch.PageTable.Rounds.{
  page-IsEntry, table-IsEntry-absent, walk-none, Entry-cases, Entry-absent, vm_map-end, vm_map-page,
  vm_map-new, vm_map-old, round,
}

-- The part of a table in which an entry above it lies.
IsUnmapped-below :
    (l o v vend phys i fuel : ℕ) (u : Bool) (s t : Table)
    → suc l < 4
    → v < vend
    → Ready (suc l) o v vend phys i (suc fuel)
    → t i ≡ table u s
    → IsUnmapped (suc l) v vend t
    → IsUnmapped l v (entry_end (suc l) v vend) s
IsUnmapped-below l o v vend phys i fuel u s t ll lt r q un x a b =
    let st = entry_end-IsStep (suc l) v vend ll lt (r.top) in
    virt-below l v vend (entry_end (suc l) v vend) i u s t ll st (r.index lt) q x a b
    ∙ un x a (omega (arith, st.within))

pub empty_table-IsUnmapped : (l v vend : ℕ) → IsUnmapped l v vend empty_table
unfolding walk virt_to_phys
empty_table-IsUnmapped l v vend x a b = refl

vm_map_lem :
    (l fuel : ℕ) (o v vend phys i : ℕ) (user : Bool) (t : Table)
    → l < 4
    → Ready l o v vend phys i fuel
    → IsUnmapped l v vend t
    → Yields (IsMapped l o v vend phys t) (vm_map l fuel i v vend phys user t)
vm_map_lem l zero o v vend phys i user t ll r un = absurd (omega (arith, (r.fuelled).0))
vm_map_lem zero (suc fuel) o v vend phys i user t ll r un = elim (Bool-cases (ltb v vend)) [
  | inr n ↦
      subst (Yields (IsMapped zero o v vend phys t))
        (sym (vm_map-end zero fuel i v vend phys user t n))
        (IsChanged-empty zero o v vend (mapped_to v phys) t n)
  | inl y ↦
      let lt : v < vend = ground (arith, y) in
      let q : t i ≡ absent = Entry-absent v (t i) (walk-none zero o v vend phys i fuel t lt r un) in
      let new = page (frame_of phys) user in
      subst (Yields (IsMapped zero o v vend phys t))
        (sym (vm_map-page fuel i v vend phys user t y q))
        (round zero o v vend phys i fuel new t _ ll lt r
          (page-IsEntry o v vend phys i fuel user (t i) lt r)
          (vm_map_lem zero fuel o (entry_end zero v vend) vend (next_phys zero phys) (suc i) user
            (set_entry i new t) ll (Ready-step zero o v vend phys i fuel ll lt r)
            (IsUnmapped-step zero o v vend phys i fuel new t ll lt r un)))
]
vm_map_lem (suc l) (suc fuel) o v vend phys i user t ll r un = elim (Bool-cases (ltb v vend)) [
  | inr n ↦
      subst (Yields (IsMapped (suc l) o v vend phys t))
        (sym (vm_map-end (suc l) fuel i v vend phys user t n))
        (IsChanged-empty (suc l) o v vend (mapped_to v phys) t n)
  | inl y ↦
      let lt : v < vend = ground (arith, y) in
      let e = entry_end (suc l) v vend in
      let low : l < 4 = omega arith in
      let Below : Table → Table → Type 0 = λ s s'. IsMapped l v v e phys s s' in
      let below : (s : Table)
          → IsUnmapped l v e s
          → Yields (Below s) (vm_map l rounds (table_index l v) v e phys user s) =
        λ s un'.
          vm_map_lem l rounds v v e phys (table_index l v) user s low
            (Ready-below l o v vend phys i fuel ll lt r) un' in
      let rest : (new : Entry)
          → IsEntry (suc l) v e (mapped_to v phys) (t i) new
          → Yields (IsMapped (suc l) o v vend phys t) (
              vm_map (suc l) fuel (suc i) e vend (next_phys (suc l) phys) user
                (set_entry i new t)) =
        λ new en. round (suc l) o v vend phys i fuel new t _ ll lt r en (
          vm_map_lem (suc l) fuel o e vend (next_phys (suc l) phys) (suc i) user (set_entry i new t)
            ll (Ready-step (suc l) o v vend phys i fuel ll lt r)
            (IsUnmapped-step (suc l) o v vend phys i fuel new t ll lt r un)) in
      elim (Entry-cases (suc l) v (t i) (walk-none (suc l) o v vend phys i fuel t lt r un)) [
        | inl q ↦
            subst (Yields (IsMapped (suc l) o v vend phys t))
              (sym (vm_map-new l fuel i v vend phys user t y q))
              (Yields-bind (Below empty_table) (IsMapped (suc l) o v vend phys t) _ _
                (below empty_table (empty_table-IsUnmapped l v e))
                (λ s' m. rest (table user s') (
                  subst (λ en. IsEntry (suc l) v e (mapped_to v phys) en (table user s')) (sym q)
                    (table-IsEntry-absent l v e phys user s' ll m))))
        | inr (u, s, q) ↦
            subst (Yields (IsMapped (suc l) o v vend phys t))
              (sym (vm_map-old l fuel i v vend phys user u s t y q))
              (Yields-bind (Below s) (IsMapped (suc l) o v vend phys t) _ _
                (below s (IsUnmapped-below l o v vend phys i fuel u s t ll lt r q un))
                (λ s' m. rest (table (u || user) s') (
                  subst (λ en. IsEntry (suc l) v e (mapped_to v phys) en (table (u || user) s'))
                    (sym q) (table-IsEntry l v e (mapped_to v phys) u (u || user) s s' ll m))))
      ]
]

-- The end of the range, rounded up to a page.
abbrev pub page_end : ℕ → ℕ
page_end end = (end + 4095) / 4096 * 4096

Meets-page_end :
    (k start end phys : ℕ)
    → start < end
    → Meets k start end phys
    → Meets k start (page_end end) phys
Meets-page_end k start end phys lt (inr c) = inr c
Meets-page_end zero start end phys lt (inl q) = inl (omega arith)
Meets-page_end (suc zero) start end phys lt (inl q) = inl (omega arith)
Meets-page_end (suc (suc zero)) start end phys lt (inl q) = inl (omega arith)
Meets-page_end (suc (suc (suc k))) start end phys lt (inl q) = inl (omega arith)

map_physical-run :
    (start end physical : ℕ) (user : Bool) (t : Table)
    → start % 4096 ≡ 0
    → physical % 4096 ≡ 0
    → start < end
    → end + 4095 < 2 ^ 64
    → map_physical start end physical user t
      ≡ vm_map 3 rounds (table_index 3 start) start (page_end end) physical user t
unfolding map_physical
map_physical-run start end physical user t sa pa lt top =
    let size : (end + (2 ^ 64 - start)) % 2 ^ 64 ≡ end - start = omega arith in
    let first : start / 4096 * 4096 ≡ start = omega arith in
    let last : (start + (end - start) + 4095) % 2 ^ 64 / 4096 * 4096 ≡ page_end end = omega arith in
    let frame : physical / 4096 * 4096 ≡ physical = omega arith in
    rw (size, ==-false (end - start) 0 (λ q. omega arith), first, last, frame) refl

-- Where the frames of new tables are had, mapping a range of addresses that is not mapped succeeds,
-- and it maps each of its pages to the page of the physical addresses at the same distance from the
-- start, and leaves the translation of all other addresses of the same half of the address space.
-- The range and the physical addresses start at a page, the range is not empty, lies in one half and
-- ends at least 4095 bytes below 2^64, the physical addresses end at 2^52 at most, and where the
-- range crosses the end of an entry of some level, the start and the physical address have the same
-- offset in an entry of that level.
pub map_physical-IsMapped :
    (start end physical : ℕ) (user : Bool) (t : Table)
    → start % 4096 ≡ 0
    → physical % 4096 ≡ 0
    → start < end
    → end + 4095 < 2 ^ 64
    → start / 2 ^ 48 ≡ (end - 1) / 2 ^ 48
    → physical + (page_end end - start) ≤ 2 ^ 52
    → ((k : ℕ) → k ≤ 3 → Meets k start end physical)
    → IsUnmapped 3 start (page_end end) t
    → Yields
        (IsMapped 3 start start (page_end end) physical t)
        (map_physical start end physical user t)
map_physical-IsMapped start end physical user t sa pa lt top half room meets un =
    let cov : (x : ℕ) → start ≤ x → x < page_end end → Covers 3 start x = λ x a b. omega arith in
    let r : Ready 3 start start (page_end end) physical (table_index 3 start) 514 = record {
      low = sa;
      high = omega arith;
      top = omega arith;
      fuelled = Fuelled-start 3 start (page_end end) (omega arith) cov (omega arith);
      fits = λ h. record {
        here = refl;
        covers = cov;
        room = room;
        aligned = pa;
        meets = λ k le. Meets-page_end k start end physical lt (meets k le);
      };
      index = λ h. refl;
    } in
    subst (Yields (IsMapped 3 start start (page_end end) physical t))
      (sym (map_physical-run start end physical user t sa pa lt (omega arith)))
      (vm_map_lem 3 rounds start start (page_end end) physical (table_index 3 start) user t
        (omega arith) r un)
