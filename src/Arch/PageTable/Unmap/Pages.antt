-- ===== src/Arch/PageTable/Unmap/Pages.antt =====
-- The pages that `unmap` of kernel/arch/amd64/memory/vm.cpp goes over.
use reaveros.Prelude.{
  ℕ, zero, suc, ◌+◌, ◌-◌, ◌*◌, ◌/◌, ◌%◌, ◌≤◌, ◌<◌, ◌≡◌, refl, sym, ap, ◌∙◌, Option, none, some,
  List, [], ◌∷◌, ◌++◌, append-nil, append_assoc, arith, All, length, length-append, Bool,
  Bool-cases, ◌==◌, inl, inr, true, false, if◌then◌else◌,
}
use reaveros.Arch.PageTable.Unmap.{
  Effects, release_page, TlbInvalidator, invalidate, trigger, num_places,
}

-- The pages of a range, in order.
abbrev page_list : ℕ → ℕ → List ℕ
page_list zero v = []
page_list (suc n) v = v ∷ page_list n (v + 4096)

abbrev pub pages_of : ℕ → ℕ → List ℕ
pages_of v e = page_list ((e - v) / 4096) v

page_list-append : (m n v : ℕ) → page_list m v ++ page_list n (v + m * 4096) ≡ page_list (m + n) v
page_list-append zero n v =
    ap (page_list n) {x = v + zero * 4096} {y = v} (omega arith)
    ∙ ap (λ k. page_list k v) {x = n} {y = zero + n} (omega arith)
page_list-append (suc m) n v =
    ap (λ a. v ∷ (page_list m (v + 4096) ++ page_list n a)) (omega arith)
    ∙ ap (λ xs. v ∷ xs) (page_list-append m n (v + 4096))
    ∙ ap (λ k. page_list k v) {x = suc (m + n)} {y = suc m + n} (omega arith)

pub pages_of-append :
    (v e vend : ℕ)
    → v ≤ e
    → e ≤ vend
    → v % 4096 ≡ 0
    → e % 4096 ≡ 0
    → pages_of v e ++ pages_of e vend ≡ pages_of v vend
pages_of-append v e vend a b vz ez =
    ap (λ x. page_list ((e - v) / 4096) v ++ page_list ((vend - e) / 4096) x) (omega arith)
    ∙ page_list-append ((e - v) / 4096) ((vend - e) / 4096) v
    ∙ ap (λ n. page_list n v) (omega arith)

-- The frame that an address is translated to.
abbrev pub frame_at : Option ℕ → ℕ
frame_at none = 0
frame_at (some p) = p

abbrev pub frames : (ℕ → Option ℕ) → List ℕ → List ℕ
frames f [] = []
frames f (x ∷ xs) = frame_at (f x) ∷ frames f xs

pub frames-append :
    (f : ℕ → Option ℕ) (xs ys : List ℕ) → frames f (xs ++ ys) ≡ frames f xs ++ frames f ys
frames-append f [] ys = refl
frames-append f (x ∷ xs) ys = ap (λ zs. frame_at (f x) ∷ zs) (frames-append f xs ys)

frames-list :
    (f g : ℕ → Option ℕ) (n v e : ℕ)
    → v + n * 4096 ≤ e
    → ((x : ℕ) → v ≤ x → x < e → f x ≡ g x)
    → frames f (page_list n v) ≡ frames g (page_list n v)
frames-list f g zero v e le h = refl
frames-list f g (suc n) v e le h =
    ap (λ o. frame_at o ∷ frames f (page_list n (v + 4096))) (h v (omega arith) (omega arith))
    ∙ ap (λ xs. frame_at (g v) ∷ xs)
        (frames-list f g n (v + 4096) e (omega arith) (λ x a b. h x (omega arith) b))

pub frames-agree :
    (f g : ℕ → Option ℕ) (v e : ℕ)
    → v ≤ e
    → ((x : ℕ) → v ≤ x → x < e → f x ≡ g x)
    → frames f (pages_of v e) ≡ frames g (pages_of v e)
frames-agree f g v e le h = frames-list f g ((e - v) / 4096) v e (omega arith) h

-- The pages that have been sent or collected.
abbrev pub concat : List (List ℕ) → List ℕ
concat [] = []
concat (xs ∷ xss) = xs ++ concat xss

concat-snoc : (xss : List (List ℕ)) (ys : List ℕ) → concat (xss ++ (ys ∷ [])) ≡ concat xss ++ ys
concat-snoc [] ys = append-nil ys
concat-snoc (xs ∷ xss) ys =
    ap (λ zs. xs ++ zs) (concat-snoc xss ys) ∙ sym (append_assoc xs (concat xss) ys)

abbrev pub seen : TlbInvalidator → List ℕ
seen v = concat v.batches ++ v.pages

-- No batch has more pages than there are places, and there is a place for the next page.
abbrev pub HasPlace : TlbInvalidator → Type 0
HasPlace v = All (λ b. length b ≤ num_places) v.batches × (length v.pages < num_places)

All-snoc :
    (xss : List (List ℕ)) (ys : List ℕ)
    → All (λ b. length b ≤ num_places) xss
    → length ys ≤ num_places
    → All (λ b. length b ≤ num_places) (xss ++ (ys ∷ []))
All-snoc [] ys a le = (le, tt)
All-snoc (xs ∷ xss) ys a le = (a.0, All-snoc xss ys a.1 le)

pub trigger-HasPlace : (v : TlbInvalidator) → HasPlace v → HasPlace (trigger v)
trigger-HasPlace v h = (All-snoc v.batches v.pages (h.0) (omega (arith, h.1)), omega arith)

pub seen-trigger : (v : TlbInvalidator) → concat (trigger v).batches ≡ seen v
seen-trigger v = concat-snoc v.batches v.pages

pub invalidate-HasPlace : (x : ℕ) (v : TlbInvalidator) → HasPlace v → HasPlace (invalidate x v)
unfolding invalidate
invalidate-HasPlace x v h = elim (Bool-cases (length (v.pages ++ (x ∷ [])) == num_places)) [
  | inl y ↦ rw y (
    All-snoc v.batches (v.pages ++ (x ∷ [])) (h.0)
        (omega (arith, h.1, length-append v.pages (x ∷ []))),
    omega arith,
  )
  | inr n ↦ rw n (h.0, ground (arith, h.1, length-append v.pages (x ∷ [])))
]

pub seen-invalidate : (x : ℕ) (v : TlbInvalidator) → seen (invalidate x v) ≡ seen v ++ (x ∷ [])
unfolding invalidate
seen-invalidate x v = elim (Bool-cases (length (v.pages ++ (x ∷ [])) == num_places)) [
  | inl y ↦ rw y (
      append-nil _
      ∙ concat-snoc v.batches (v.pages ++ (x ∷ []))
      ∙ sym (append_assoc (concat v.batches) v.pages (x ∷ [])))
  | inr n ↦ rw n (sym (append_assoc (concat v.batches) v.pages (x ∷ [])))
]

-- The pages of the range are seen, and their frames are freed where that is asked for.
abbrev pub IsCounted : (ℕ → Option ℕ) → ℕ → ℕ → Bool → Effects → Effects → Type 0
IsCounted f v e free s s' =
    (s'.freed ≡ s.freed ++ (if free then frames f (pages_of v e) else []))
    × (seen s'.invalidator ≡ seen s.invalidator ++ pages_of v e)
    × (HasPlace s.invalidator → HasPlace s'.invalidator)

both :
    (f g : ℕ → Option ℕ) (v e vend : ℕ) (free : Bool)
    → v ≤ e
    → e ≤ vend
    → v % 4096 ≡ 0
    → e % 4096 ≡ 0
    → ((x : ℕ) → e ≤ x → x < vend → f x ≡ g x)
    → (if free then frames f (pages_of v e) else [])
        ++ (if free then frames g (pages_of e vend) else [])
      ≡ (if free then frames f (pages_of v vend) else [])
both f g v e vend false a b vz ez h = refl
both f g v e vend true a b vz ez h =
    ap (λ xs. frames f (pages_of v e) ++ xs) (sym (frames-agree f g e vend b h))
    ∙ sym (frames-append f (pages_of v e) (pages_of e vend))
    ∙ ap (frames f) (pages_of-append v e vend a b vz ez)

pub IsCounted-trans :
    (f g : ℕ → Option ℕ) (v e vend : ℕ) (free : Bool) (s s1 s2 : Effects)
    → v ≤ e
    → e ≤ vend
    → v % 4096 ≡ 0
    → e % 4096 ≡ 0
    → ((x : ℕ) → e ≤ x → x < vend → f x ≡ g x)
    → IsCounted f v e free s s1
    → IsCounted g e vend free s1 s2
    → IsCounted f v vend free s s2
IsCounted-trans f g v e vend free s s1 s2 a b vz ez h c d = (
  d.0
      ∙ ap (λ xs. xs ++ (if free then frames g (pages_of e vend) else [])) (c.0)
      ∙ append_assoc (s.freed) _ _
      ∙ ap (λ xs. s.freed ++ xs) (both f g v e vend free a b vz ez h),
  d.1
      ∙ ap (λ xs. xs ++ pages_of e vend) (c.1)
      ∙ append_assoc (seen s.invalidator) _ _
      ∙ ap (λ xs. seen s.invalidator ++ xs) (pages_of-append v e vend a b vz ez),
  λ p. d.2 (c.2 p),
)

-- A range without pages, and one of a single page.
pub IsCounted-empty :
    (f : ℕ → Option ℕ) (v e : ℕ) (free : Bool) (s : Effects) → e ≤ v → IsCounted f v e free s s
IsCounted-empty f v e free s le =
    let q : pages_of v e ≡ [] =
      ap (λ n. page_list n v) {x = (e - v) / 4096} {y = 0} (omega arith) in
    rw q (none_freed free, sym (append-nil _), λ p. p)
  where
    none_freed : (free : Bool) → s.freed ≡ s.freed ++ (if free then [] else [])
    none_freed true = sym (append-nil _)
    none_freed false = sym (append-nil _)

pub IsCounted-page :
    (f : ℕ → Option ℕ) (v p : ℕ) (free : Bool) (s : Effects)
    → f v ≡ some p
    → IsCounted f v (v + 4096) free s (release_page free p v s)
IsCounted-page f v p free s q =
    let one : pages_of v (v + 4096) ≡ v ∷ [] =
      ap (λ n. page_list n v) {x = (v + 4096 - v) / 4096} {y = 1} (omega arith) in
    rw one (freed free, seen-invalidate v s.invalidator, invalidate-HasPlace v s.invalidator)
  where
    freed :
        (free : Bool)
        → (release_page free p v s).freed ≡ s.freed ++ (if free then frame_at (f v) ∷ [] else [])
    freed true = ap (λ o. s.freed ++ (frame_at o ∷ [])) (sym q)
    freed false = sym (append-nil _)

pub IsCounted-agree :
    (f g : ℕ → Option ℕ) (v e : ℕ) (free : Bool) (s s' : Effects)
    → v ≤ e
    → ((x : ℕ) → v ≤ x → x < e → f x ≡ g x)
    → IsCounted f v e free s s'
    → IsCounted g v e free s s'
IsCounted-agree f g v e false s s' le h c = c
IsCounted-agree f g v e true s s' le h c =
    (c.0 ∙ ap (λ xs. s.freed ++ xs) (frames-agree f g v e le h), c.1, c.2)
