-- ===== src/Util/Mp/Stale.antt =====
-- The drain of a queue in kernel/util/mp.cpp, and the links of items that are used again.
use reaveros.Prelude.{
  ℕ, zero, suc, ◌≡◌, ◌≢◌, ◌<◌, refl, sym, ap, ◌∙◌, subst, List, [], ◌∷◌, ◌++◌, ==-refl, ==-false,
  append-nil, append_assoc, arith, length,
}
use reaveros.Prelude.Outcome.{Yields, Yields-imp}
use reaveros.Util.Fifo.Refine.{IsChain}
use reaveros.Util.Mp.{Run, Machine, write, push, take_item, finish_item, drain}

pub write_self : (a v : ℕ) (f : ℕ → ℕ) → write a v f a ≡ v
write_self a v f = rw (==-refl a a refl) refl

pub write_other : (a v b : ℕ) (f : ℕ → ℕ) → a ≢ b → write a v f b ≡ f b
write_other a v b f n = rw (==-false a b n) refl

-- The runs of the functions of some items.
abbrev pub runs : ℕ → (ℕ → ℕ) → List ℕ → List Run
runs core state_of [] = []
runs core state_of (x ∷ xs) = record { core = core; state = state_of x } ∷ runs core state_of xs

-- The queue is empty, and the functions of the items have been run in order.
pub record IsDrained (core : ℕ) (items : List ℕ) (m n : Machine) : Type 0 where
  pub empty : n.head core ≡ 0
  pub ran : n.ran ≡ m.ran ++ runs core m.state_of items
  pub next : n.next ≡ m.next
  pub state_of : n.state_of ≡ m.state_of

-- A drain runs the functions of the items that are linked from the head on, in order, and ends, given
-- more rounds than there are items.
pub drain-IsDrained :
    (fuel core : ℕ) (items : List ℕ) (m : Machine)
    → length items < fuel
    → IsChain m.next (m.head core) items
    → Yields (IsDrained core items m) (drain fuel core m)
unfolding drain
drain-IsDrained zero core items m lt c = absurd (omega arith)
drain-IsDrained (suc fuel) core [] m lt c =
    rw (==-refl (m.head core) 0 c, drain)
      (record { empty = c; ran = sym (append-nil m.ran); next = refl; state_of = refl })
drain-IsDrained (suc fuel) core (x ∷ items) m lt c =
    let m' = finish_item core (m.head core) (take_item core m) in
    let head' : m'.head core ≡ m.next x = write_self core _ m.head ∙ ap m.next (c.0) in
    rw (==-false (m.head core) 0 (λ e. c.1 (sym (c.0) ∙ e)), drain)
      (Yields-imp (IsDrained core items m') (IsDrained core (x ∷ items) m) (drain fuel core m')
        (λ n d. record {
          empty = d.empty;
          ran =
              d.ran
              ∙ append_assoc m.ran _ _
              ∙ ap
                  (λ y.
                    m.ran
                    ++ (record { core = core; state = m.state_of y } ∷ runs core m.state_of items))
                  (c.0);
          next = d.next;
          state_of = d.state_of;
        })
        (drain-IsDrained fuel core items m' (omega arith)
          (subst (λ h. IsChain m.next h items) (sym head') (c.2))))

-- What a push changes beside the queue's ends.
pub record IsPushed (core item : ℕ) (m n : Machine) (next : ℕ → ℕ) (first : ℕ) : Type 0 where
  pub head : n.head core ≡ first
  pub tail : n.tail core ≡ item
  pub link : n.next ≡ next
  pub ran : n.ran ≡ m.ran
  pub state_of : n.state_of ≡ m.state_of

pub push_empty :
    (core item : ℕ) (m : Machine)
    → m.head core ≡ 0
    → IsPushed core item m (push core item m) m.next item
unfolding push
push_empty core item m h = rw (==-refl (m.head core) 0 h) (record {
  head = write_self core item m.head;
  tail = write_self core item m.tail;
  link = refl;
  ran = refl;
  state_of = refl;
})

pub push_more :
    (core item : ℕ) (m : Machine)
    → m.head core ≢ 0
    → IsPushed core item m (push core item m) (write (m.tail core) item m.next) (m.head core)
unfolding push
push_more core item m h = rw (==-false (m.head core) 0 h) (record {
  head = refl;
  tail = write_self core item m.tail;
  link = refl;
  ran = refl;
  state_of = refl;
})

-- Two items are queued and drained, and then the first one is queued and drained again, while no
-- other is sent: the function of the second item is run a second time, since `push` leaves the link
-- of an item from the round before.
pub drain-push_stale :
    (core a b : ℕ) (m : Machine)
    → a ≢ b
    → a ≢ 0
    → b ≢ 0
    → m.head core ≡ 0
    → m.next b ≡ 0
    → Yields
        (λ n.
          Yields
            (λ o. o.ran ≡ m.ran ++ runs core m.state_of (a ∷ b ∷ a ∷ b ∷ []))
            (drain 3 core (push core a n)))
        (drain 3 core (push core b (push core a m)))
drain-push_stale core a b m ne za zb h nb =
    let one = push_empty core a m h in
    let two = push_more core b (push core a m) (λ e. za (sym (one.head) ∙ e)) in
    let links : queued.next ≡ write a b m.next =
      two.link ∙ ap (λ t. write t b (push core a m).next) (one.tail) ∙ ap (write a b) (one.link) in
    let chain : IsChain (write a b m.next) a (a ∷ b ∷ []) =
      (refl, za, (write_self a b m.next, zb, write_other a b b m.next ne ∙ nb)) in
    let first : IsChain queued.next (queued.head core) (a ∷ b ∷ []) =
      subst (λ f. IsChain f (queued.head core) (a ∷ b ∷ [])) (sym links)
        (subst (λ j. IsChain (write a b m.next) j (a ∷ b ∷ [])) (sym (two.head ∙ one.head))
          chain) in
    let state_of = two.state_of ∙ one.state_of in
    Yields-imp (IsDrained core (a ∷ b ∷ []) queued) _ (drain 3 core queued)
      (λ n d.
        let again = push_empty core a n (d.empty) in
        let p = push core a n in
        let states : p.state_of ≡ m.state_of = again.state_of ∙ d.state_of ∙ state_of in
        Yields-imp (IsDrained core (a ∷ b ∷ []) p) _ (drain 3 core p)
          (λ o e.
            e.ran
            ∙ ap (λ f. p.ran ++ runs core f (a ∷ b ∷ [])) states
            ∙ ap (λ r. r ++ runs core m.state_of (a ∷ b ∷ []))
                (again.ran
                  ∙ d.ran
                  ∙ ap (λ f. queued.ran ++ runs core f (a ∷ b ∷ [])) state_of
                  ∙ ap (λ r. r ++ runs core m.state_of (a ∷ b ∷ [])) (two.ran ∙ one.ran))
            ∙ append_assoc m.ran _ _)
          (drain-IsDrained 3 core (a ∷ b ∷ []) p (omega arith) (
            subst (λ f. IsChain f (p.head core) (a ∷ b ∷ [])) (sym (again.link ∙ d.next ∙ links))
              (subst (λ j. IsChain (write a b m.next) j (a ∷ b ∷ [])) (sym (again.head)) chain))))
      (drain-IsDrained 3 core (a ∷ b ∷ []) queued (omega arith) first)
  where
    queued : Machine
    queued = push core b (push core a m)
