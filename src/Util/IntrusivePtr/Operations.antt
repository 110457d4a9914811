-- ===== src/Util/IntrusivePtr/Operations.antt =====
-- What the operations of kernel/util/intrusive_ptr.h do to the counts.
use reaveros.Prelude.{
  ℕ, ◌^◌, ◌≤◌, ◌<◌, ◌≡◌, ◌≢◌, refl, sym, ap, subst, ◌∙◌, true, false, arith, ◌==◌, ==-refl,
  ==-false,
}
use reaveros.Prelude.Outcome.{Outcome, fault, ◌>>=◌, Yields, Yields-bind}
use reaveros.Util.TreeHeap.{put}
use reaveros.Util.TreeHeap.Contents.{bit, count, count-put}
use reaveros.Util.IntrusivePtr.{
  Owners, set_ptr, claim, disown, copy_construct, copy_assign, move_assign, destroy_ptr, Operation,
  copy, move, copy_to, move_to, destroy, apply,
}
use reaveros.Util.IntrusivePtr.Counts.{
  points_to, owed, Tallies, IsCounted, count-some, put_own, put_other, owed-own, owed-other,
  disown-Tallies, set_ptr-Tallies, claim-IsCounted,
}

-- A pointer among the `n`.
abbrev pub IsIn : ℕ → ℕ → Type 0
IsIn n i = (1 ≤ i) × (i ≤ n)

-- The null pointer owes nothing.
owed-null : (q p : ℕ) → q ≡ 0 → p ≢ 0 → owed q p ≡ 0
owed-null q p e z = owed-other q p (λ h. z (sym h ∙ e))

count-two :
    (v : ℕ) (at : ℕ → ℕ) (n i j : ℕ)
    → v ≢ 0
    → IsIn n i
    → IsIn n j
    → i ≢ j
    → at i ≡ v
    → at j ≡ v
    → 2 ≤ count (points_to v) at n
count-two v at n i j z a b d e f =
    let there : points_to v (put i 0 at j) ≡ true =
      ==-refl (put i 0 at j) v (put_other i j 0 at d ∙ f) in
    omega (
      arith,
      count-some (points_to v) (put i 0 at) n j b.0 b.1 there,
      count-put (λ k. k) (points_to v) i n 0 at a.0 a.1,
      owed-own (at i) v e,
      owed-null 0 v refl z,
    )

-- The object of another pointer is taken over and counted.
claim-copied :
    (n i j : ℕ) (t : Owners)
    → n < 2 ^ 64
    → IsIn n i
    → IsIn n j
    → i ≢ j
    → Tallies n (owed (t.ptr i)) t
    → Yields (IsCounted n) (claim i (set_ptr i (t.ptr j) t))
claim-copied n i j t top a b d h =
    let v : ℕ = t.ptr j in
    let own : put i v t.ptr i ≡ v = put_own i i v t.ptr refl in
    let other : put i v t.ptr j ≡ v = put_other i j v t.ptr d in
    let k = set_ptr-Tallies n i v t a.0 a.1 h in
    claim-IsCounted n i (set_ptr i v t) top
      (subst (λ w. Tallies n (owed w) (set_ptr i v t)) (sym own) k)
      (λ z.
        let z' : v ≢ 0 = λ e. z (own ∙ e) in
        subst (λ w. 1 ≤ t.intrusive_count w) (sym own)
          (omega (
            arith,
            k.tally v z',
            owed-own v v refl,
            count-two v (put i v t.ptr) n i j z' a b d own other,
          )))

moved-IsCounted :
    (n i j : ℕ) (t : Owners)
    → IsIn n i
    → IsIn n j
    → i ≢ j
    → Tallies n (owed (t.ptr i)) t
    → IsCounted n (set_ptr i (t.ptr j) (set_ptr j 0 t))
moved-IsCounted n i j t a b d h = record {
  tally = λ p z.
      let first = count-put (λ k. k) (points_to p) j n 0 t.ptr b.0 b.1 in
      let second = count-put (λ k. k) (points_to p) i n (t.ptr j) (put j 0 t.ptr) a.0 a.1 in
      let same : bit (points_to p (put j 0 t.ptr i)) ≡ owed (t.ptr i) p =
        ap (λ w. bit (points_to p w)) (put_other j i 0 t.ptr (λ e. d (sym e))) in
      omega (arith, h.tally p z, first, second, same, owed-null 0 p refl z);
  alive = h.alive;
}

-- A pointer that holds nothing owes nothing.
free-Tallies : (n i : ℕ) (s : Owners) → s.ptr i ≡ 0 → IsCounted n s → Tallies n (owed (s.ptr i)) s
free-Tallies n i s e c = record {
  tally = λ p z. omega (arith, c.tally p z, owed-null (s.ptr i) p e z);
  alive = c.alive;
}

-- What an operation asks for: two pointers are different, and a new one holds nothing.
abbrev pub Fits : ℕ → Operation → Owners → Type 0
Fits n (copy i j) s = IsIn n i × IsIn n j × (i ≢ j) × (s.ptr i ≡ 0)
Fits n (move i j) s = IsIn n i × IsIn n j × (i ≢ j) × (s.ptr i ≡ 0)
Fits n (copy_to i j) s = IsIn n i × IsIn n j × (i ≢ j)
Fits n (move_to i j) s = IsIn n i × IsIn n j × (i ≢ j)
Fits n (destroy i) s = IsIn n i

disowned :
    (n i : ℕ) (s : Owners) (f : Owners → Outcome Owners)
    → n < 2 ^ 64
    → IsIn n i
    → IsCounted n s
    → ((t : Owners) → Tallies n (owed (t.ptr i)) t → Yields (IsCounted n) (f t))
    → Yields (IsCounted n) (disown i s >>= f)
disowned n i s f top a c h =
    Yields-bind (λ t. (t.ptr ≡ s.ptr) × Tallies n (owed (s.ptr i)) t) (IsCounted n) (disown i s) f
      (disown-Tallies n i s top a.0 a.1 c)
      (λ t k. h t (subst (λ g. Tallies n (owed (g i)) t) (sym (k.0)) (k.1)))

-- For objects that hold no such pointers themselves: where each object's count is the number of the
-- pointers to it, and it is deleted exactly when there is none, every operation but adopting and
-- releasing raw pointers, if its two pointers are different ones, ends without touching a deleted
-- object, and it is so again behind it. There are fewer pointers than 2^64.
pub apply-IsCounted :
    (n : ℕ) (o : Operation) (s : Owners)
    → n < 2 ^ 64
    → Fits n o s
    → IsCounted n s
    → Yields (IsCounted n) (apply o s)
unfolding apply copy_construct copy_assign move_assign destroy_ptr
apply-IsCounted n (copy i j) s top (a, b, d, e) c =
    claim-copied n i j s top a b d (free-Tallies n i s e c)
apply-IsCounted n (move i j) s top (a, b, d, e) c =
    moved-IsCounted n i j s a b d (free-Tallies n i s e c)
apply-IsCounted n (copy_to i j) s top (a, b, d) c =
    disowned n i s _ top a c (λ t h. claim-copied n i j t top a b d h)
apply-IsCounted n (move_to i j) s top (a, b, d) c =
    disowned n i s _ top a c (λ t h. moved-IsCounted n i j t a b d h)
apply-IsCounted n (destroy i) s top a c = disowned n i s _ top a c (λ t h.
    let k = set_ptr-Tallies n i 0 t a.0 a.1 h in
    record { tally = λ p z. omega (arith, k.tally p z, owed-null 0 p refl z); alive = k.alive })

-- The copying assignment of the only pointer to an object to itself deletes the object, and then
-- touches it.
pub copy_assign_itself :
    (i : ℕ) (s : Owners)
    → s.ptr i ≢ 0
    → s.live (s.ptr i) ≡ true
    → s.intrusive_count (s.ptr i) ≡ 1
    → copy_assign i i s ≡ fault
unfolding copy_assign disown claim
copy_assign_itself i s z l e =
    let n : (s.ptr i == 0) ≡ false = ==-false (s.ptr i) 0 z in
    rw (n, l) (rw (==-refl i i refl) (rw (n, ==-refl (s.ptr i) (s.ptr i) refl, e) refl))
