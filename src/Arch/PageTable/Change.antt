-- ===== src/Arch/PageTable/Change.antt =====
-- How a run over the page tables of kernel/arch/amd64/memory/vm.cpp changes the translation of a range.
use reaveros.Prelude.{
  ℕ, suc, Bool, ◌/◌, ◌%◌, ◌≤◌, ◌<◌, ◌≡◌, ◌≢◌, refl, sym, ap, ◌∙◌, Bool-cases, false, Option, ◌⊎◌,
  arith, ◌==◌, ==-refl, ==-false, eq_of_==, ne_of_==, ltb, leb, ◌&&◌, inl, inr, if◌then◌else◌,
}
use reaveros.Arch.PageTable.{
  Entry, table, Table, entry_size, table_index, set_entry, walk, virt_to_phys,
}
use reaveros.Arch.PageTable.Steps.{IsStep, Covers, Covers-below, index-entry, later_entry}

-- The translation of an address after that of a range has changed to `new`.
abbrev pub changed : ℕ → ℕ → (ℕ → Option ℕ) → ℕ → Option ℕ → Option ℕ
changed v vend new x old = if leb v x && ltb x vend then new x else old

-- In the part of the address space that the table covers with `o`, the translation of the range is
-- `new`, and all else is as it was.
abbrev pub IsChanged : ℕ → ℕ → ℕ → ℕ → (ℕ → Option ℕ) → Table → Table → Type 0
IsChanged l o v vend new t t' =
    (x : ℕ) → Covers l o x → virt_to_phys l t' x ≡ changed v vend new x (virt_to_phys l t x)

-- The entry with the first part of the range.
abbrev pub IsEntry : ℕ → ℕ → ℕ → (ℕ → Option ℕ) → Entry → Entry → Type 0
IsEntry l v e new old en =
    (x : ℕ) → x / entry_size l ≡ v / entry_size l → walk l en x ≡ changed v e new x (walk l old x)

pub changed_in :
    (v vend : ℕ) (new : ℕ → Option ℕ) (x : ℕ) (old : Option ℕ)
    → v ≤ x
    → x < vend
    → changed v vend new x old ≡ new x
changed_in v vend new x old le lt = ground arith

pub changed_out :
    (v vend : ℕ) (new : ℕ → Option ℕ) (x : ℕ) (old : Option ℕ)
    → (v ≤ x → x < vend → ⊥)
    → changed v vend new x old ≡ old
changed_out v vend new x old n = ground arith

virt-set_entry :
    (l i : ℕ) (e : Entry) (t : Table) (x : ℕ)
    → table_index l x ≡ i
    → virt_to_phys l (set_entry i e t) x ≡ walk l e x
unfolding virt_to_phys
virt-set_entry l i e t x q = rw (==-refl i (table_index l x) (sym q), walk) refl

pub virt-set_entry_other :
    (l i : ℕ) (e : Entry) (t : Table) (x : ℕ)
    → i ≢ table_index l x
    → virt_to_phys l (set_entry i e t) x ≡ virt_to_phys l t x
unfolding virt_to_phys
virt-set_entry_other l i e t x n = rw (==-false i (table_index l x) n, walk) refl

-- An address of the entry with the index, and one of another.
pub virt_at :
    (l i : ℕ) (t : Table) (x : ℕ) → table_index l x ≡ i → virt_to_phys l t x ≡ walk l (t i) x
unfolding virt_to_phys
virt_at l i t x q = ap (λ j. walk l (t j) x) q

-- Whether an address is in a range.
within-cases : (v e x : ℕ) → (v ≤ x) × (x < e) ⊎ (v ≤ x → x < e → ⊥)
within-cases v e x = elim (Bool-cases (leb v x && ltb x e)) [
  | inl y ↦ inl (ground arith)
  | inr n ↦ inr (λ a b. ground arith)
]

-- In the entry of the step.
step_here :
    (l v vend e : ℕ) (new : ℕ → Option ℕ) (x : ℕ) (old : Option ℕ)
    → IsStep l v vend e
    → x / entry_size l ≡ v / entry_size l
    → (e ≤ x → x < vend → ⊥) × (changed v e new x old ≡ changed v vend new x old)
step_here l v vend e new x old s q =
    let none_later : e ≤ x → x < vend → ⊥ = λ a b. later_entry l v vend e x s (omega arith) a q in
    (
      none_later,
      elim (within-cases v e x) [
        | inl y ↦
            changed_in v e new x old (y.0) (y.1)
            ∙ sym (changed_in v vend new x old (y.0) (omega (arith, s.within)))
        | inr n ↦
            changed_out v e new x old n
            ∙ sym (
                changed_out v vend new x old (λ a b. elim (within-cases e vend x) [
                  | inl y ↦ none_later (y.0) (y.1)
                  | inr m ↦ n a (ground arith)
                ]))
      ],
    )

-- Outside of it.
step_other :
    (l v vend e : ℕ) (new new' : ℕ → Option ℕ) (x : ℕ) (old : Option ℕ)
    → IsStep l v vend e
    → ((x : ℕ) → e ≤ x → x < vend → new' x ≡ new x)
    → (x / entry_size l ≡ v / entry_size l → ⊥)
    → changed e vend new' x old ≡ changed v vend new x old
step_other l v vend e new new' x old s agree n = elim (within-cases e vend x) [
  | inl y ↦
      changed_in e vend new' x old (y.0) (y.1)
      ∙ agree x (y.0) (y.1)
      ∙ sym (changed_in v vend new x old (omega (arith, s.below)) (y.1))
  | inr m ↦
      changed_out e vend new' x old m
      ∙ sym (
          changed_out v vend new x old (λ a b. elim (within-cases v e x) [
            | inl y ↦ n (s.same x (y.0) (y.1))
            | inr k ↦ m (ground arith) b
          ]))
]

-- The entry with the first part, and the change of the rest.
pub combine :
    (l o v vend e i : ℕ) (new new' : ℕ → Option ℕ) (en : Entry) (t t' : Table)
    → IsStep l v vend e
    → ((x : ℕ) → e ≤ x → x < vend → new' x ≡ new x)
    → Covers l o v
    → i ≡ table_index l v
    → IsEntry l v e new (t i) en
    → IsChanged l o e vend new' (set_entry i en t) t'
    → IsChanged l o v vend new t t'
combine l o v vend e i new new' en t t' s agree co qi first rest x c =
    elim (Bool-cases (x / entry_size l == v / entry_size l)) [
      | inl y ↦
          let q : x / entry_size l ≡ v / entry_size l =
            eq_of_== (x / entry_size l) (v / entry_size l) y in
          let qx : table_index l x ≡ i = ap (λ a. a % 512) q ∙ sym qi in
          let here = step_here l v vend e new x (walk l (t i) x) s q in
          rest x c
          ∙ changed_out e vend new' x (virt_to_phys l (set_entry i en t) x) (here.0)
          ∙ virt-set_entry l i en t x qx
          ∙ first x q
          ∙ here.1
          ∙ ap (changed v vend new x) (sym (virt_at l i t x qx))
      | inr y ↦
          let n : x / entry_size l ≢ v / entry_size l =
            ne_of_== (x / entry_size l) (v / entry_size l) y in
          rest x c
          ∙ ap (changed e vend new' x) (
              virt-set_entry_other l i en t x
                (λ q. n (index-entry l v x (c ∙ sym co) (sym q ∙ qi))))
          ∙ step_other l v vend e new new' x (virt_to_phys l t x) s agree n
    ]

pub IsChanged-empty :
    (l o v vend : ℕ) (new : ℕ → Option ℕ) (t : Table)
    → ltb v vend ≡ false
    → IsChanged l o v vend new t t
IsChanged-empty l o v vend new t n x c =
    sym (changed_out v vend new x (virt_to_phys l t x) (λ a b. ground (arith, n)))

-- A table below an entry.
pub table-IsEntry :
    (l v e : ℕ) (new : ℕ → Option ℕ) (u u' : Bool) (s s' : Table)
    → suc l < 4
    → IsChanged l v v e new s s'
    → IsEntry (suc l) v e new (table u s) (table u' s')
unfolding walk virt_to_phys
table-IsEntry l v e new u u' s s' ll m x q = m x (Covers-below l v x ll q)

pub virt-below :
    (l v vend e i : ℕ) (u : Bool) (s t : Table)
    → suc l < 4
    → IsStep (suc l) v vend e
    → i ≡ table_index (suc l) v
    → t i ≡ table u s
    → (x : ℕ) → v ≤ x
    → x < e
    → virt_to_phys l s x ≡ virt_to_phys (suc l) t x
unfolding walk virt_to_phys
virt-below l v vend e i u s t ll st qi q x a b =
    ap (λ en. walk (suc l) en x) (sym q)
    ∙ sym (virt_at (suc l) i t x (ap (λ a. a % 512) (st.same x a b) ∙ sym qi))
