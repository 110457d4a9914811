-- ===== src/Scheduler/Mailbox/Laws.antt =====
-- The mailboxes of kernel/scheduler/mailbox.cpp: what a write and a read do to the queue and to the
-- handle tables.
use reaveros.Prelude.{
  ℕ, ◌+◌, ◌<◌, ◌≡◌, ◌≢◌, refl, sym, ap, ◌∙◌, subst, true, false, Option, none, some, List, [], ◌∷◌,
  ◌++◌, arith, ◌==◌, ◌||◌, append-nil, take, drop,
}
use reaveros.Prelude.Outcome.{done, Yields, Yields-bind, Yields-imp}
use reaveros.Util.Handle.{Handle, has_permissions}
use reaveros.Scheduler.Process.{
  Process, get_handle, find_token, token_at, unregister_token, register_for_token, Registered,
}
use reaveros.Scheduler.Process.Table.{
  HasTable, Updates, takes_double, unregister_token-Updates, register_for_token-Updates,
}
use reaveros.Scheduler.System.{System, Thread, SyscallResult, ok, container, put_self, put_other}
use reaveros.Scheduler.Mailbox.{
  State, Payload, handle, Message, handle_token, user_message, unknown_type, ReadResult, returns,
  send, write, read, wake, enqueue, put_container, poll,
}

-- A write that is refused changes nothing: neither the mailbox nor any process.
pub write_refused :
    (transfer : ℕ) (m : Message) (s s' : State) (r : SyscallResult)
    → write transfer m s ≡ done (s', r)
    → r ≢ ok
    → s' ≡ s
unfolding write
write_refused transfer (handle_token token) s s' r e n = ground arith
write_refused transfer (user_message a b) s s' r e n = ground arith
write_refused transfer unknown_type s s' r e n = cc

-- What `send` does to the mailbox and to the scheduler.
abbrev pub Queued : Payload → State → Type 0
Queued m s =
    ((send m s).mailbox.message_queue ≡ s.mailbox.message_queue ++ (m ∷ []))
    × ((send m s).mailbox.waiting_threads ≡ drop 1 s.mailbox.waiting_threads)
    × ((send m s).system.ready ≡ s.system.ready ++ take 1 s.mailbox.waiting_threads)
    × ((send m s).system.processes ≡ s.system.processes)
    × ((send m s).system.current ≡ s.system.current)
    × ((send m s).system.readings ≡ s.system.readings)

-- A message goes to the end of the queue, and the thread that has waited longest, if there is one, is
-- taken off the waiting threads and handed to the scheduler; all else stays.
pub send-queue : (m : Payload) (s : State) → Queued m s
unfolding send
send-queue m s = woken s.mailbox.waiting_threads refl
  where
    woken :
        (ts : List Thread)
        → s.mailbox.waiting_threads ≡ ts
        → let z = wake ts (enqueue m s) in
          (z.mailbox.message_queue ≡ s.mailbox.message_queue ++ (m ∷ []))
          × (z.mailbox.waiting_threads ≡ drop 1 ts)
          × (z.system.ready ≡ s.system.ready ++ take 1 ts)
          × (z.system.processes ≡ s.system.processes)
          × (z.system.current ≡ s.system.current)
          × (z.system.readings ≡ s.system.readings)
    woken [] e = (refl, e, sym (append-nil s.system.ready), refl, refl, refl)
    woken (t ∷ ts) e = (refl, refl, refl, refl, refl, refl)

-- What a successful write of a handle leaves.
abbrev pub Sent : ℕ → Handle → State → State × SyscallResult → Type 0
Sent token h s (s', r) =
    (r ≡ ok)
    × (s'.mailbox.message_queue ≡ s.mailbox.message_queue ++ (handle h ∷ []))
    × Updates (container s.system) token none (s'.system.processes s.system.current)
    × ((b : ℕ) → s.system.current ≢ b → s'.system.processes b ≡ s.system.processes b)
    × (s'.system.current ≡ s.system.current)
    × (s'.system.readings ≡ s.system.readings)

-- A write of a token that stands for a transferable handle moves the handle from the sender's table
-- to the end of the queue: the token stands for nothing afterwards, and no other token, no other
-- process is touched. The sender's table is valid, and its tree is not of the shape in which `erase`
-- takes a double rotation.
pub write_handle :
    (transfer token : ℕ) (h : Handle) (s : State)
    → HasTable (container s.system)
    → get_handle token (container s.system) ≡ some h
    → has_permissions transfer h ≡ true
    → takes_double (find_token token (container s.system)) ≡ false
    → Yields (Sent token h s) (write transfer (handle_token token) s)
unfolding write
write_handle transfer token h s v e g d =
    rw (e, write)
      (rw (g, write)
        (Yields-bind (Updates (container s.system) token none) _
          (unregister_token token (container s.system)) _
          (unregister_token-Updates token h (container s.system) v e d)
          λ p u. sent p u (send-queue (handle h) (put_container p s))))
  where
    sent :
        (p : Process)
        → Updates (container s.system) token none p
        → Queued (handle h) (put_container p s)
        → Sent token h s (send (handle h) (put_container p s), ok)
    sent p u q = (
      refl,
      q.0,
      subst (Updates (container s.system) token none)
          (sym (ap (λ f. f s.system.current) q.3 ∙ put_self s.system.current p s.system)) u,
      λ b n. ap (λ f. f b) q.3 ∙ put_other s.system.current b p s.system n,
      q.4,
      q.5,
    )

-- What a successful read of a handle leaves and returns.
abbrev pub Received : Handle → List Payload → State → State × ReadResult → Type 0
Received h ms s (s', r) =
    (token : ℕ) × (r ≡ returns ok (some (handle_token token)))
    × (s'.mailbox.message_queue ≡ ms)
    × (get_handle token (container s.system) ≡ none)
    × Updates (container s.system) token (some h) (s'.system.processes s.system.current)
    × ((b : ℕ) → s.system.current ≢ b → s'.system.processes b ≡ s.system.processes b)

-- What `register_for_token` promises.
abbrev Fresh : Handle → State → Registered → Type 0
Fresh h s r =
    (get_handle r.token (container s.system) ≡ none)
    × Updates (container s.system) r.token (some h) r.process

-- A read of a mailbox whose first message is a handle, polling or not, takes this message off, and
-- puts the handle into the reader's table under a token that was not in use and that it returns; no
-- other token, no other process is touched. The reader's table is valid, and some reading of the
-- timer among the next `fuel` gives such a token.
pub read_handle :
    (deschedule : System → Thread × System) (clock : ℕ → ℕ) (fuel timeout n : ℕ) (h : Handle)
    (ms : List Payload) (s : State)
    → ((timeout == poll) || (timeout == 0)) ≡ true
    → s.mailbox.message_queue ≡ handle h ∷ ms
    → HasTable (container s.system)
    → n < fuel
    → get_handle
        (token_at (container s.system) h (clock (s.system.readings + n)))
        (container s.system)
      ≡ none
    → Yields (Received h ms s) (read deschedule clock fuel timeout s)
unfolding read
read_handle deschedule clock fuel timeout n h ms s t q v lt e =
    rw (t, read)
      (rw (q, read)
        (Yields-bind (Fresh h s) _
          (register_for_token clock fuel s.system.readings h (container s.system)) _
          (register_for_token-Updates clock fuel s.system.readings n h (container s.system) v lt e)
          λ r k. (
            r.token,
            refl,
            refl,
            k.0,
            subst (Updates (container s.system) r.token (some h))
                (sym (put_self s.system.current r.process s.system)) k.1,
            λ b m. put_other s.system.current b r.process s.system m,
          )))

-- The same kernel, with another process running.
abbrev pub run_as : ℕ → State → State
run_as b s = record s { system = record (s.system) { current = b } }

-- The handle has arrived: the reader's new token stands for it, and the sender's for nothing.
abbrev pub Transferred : ℕ → ℕ → ℕ → Handle → State × ReadResult → Type 0
Transferred a b token h (s, r) =
    (t : ℕ) × (r ≡ returns ok (some (handle_token t)))
    × (get_handle t (s.system.processes b) ≡ some h)
    × (get_handle token (s.system.processes a) ≡ none)
    × (s.mailbox.message_queue ≡ [])

-- A transferable handle that one process writes to an empty mailbox, and another one reads from it,
-- ends up in the reader's table alone: the token that the read returns stands for it, the writer's
-- token stands for nothing, and the mailbox is empty again. The tables of both are valid, the
-- writer's tree is not of the shape in which `erase` takes a double rotation, and some reading of the
-- timer among the next `fuel` gives the reader a token that is not in use.
pub transfer_roundtrip :
    (deschedule : System → Thread × System) (clock : ℕ → ℕ) (fuel n transfer token b : ℕ)
    (h : Handle) (s : State)
    → s.mailbox.message_queue ≡ []
    → s.system.current ≢ b
    → HasTable (container s.system)
    → HasTable (s.system.processes b)
    → get_handle token (container s.system) ≡ some h
    → has_permissions transfer h ≡ true
    → takes_double (find_token token (container s.system)) ≡ false
    → n < fuel
    → get_handle
        (token_at (s.system.processes b) h (clock (s.system.readings + n)))
        (s.system.processes b)
      ≡ none
    → Yields
        (λ (s', r).
          (r ≡ ok)
          × Yields
              (Transferred s.system.current b token h)
              (read deschedule clock fuel 0 (run_as b s')))
        (write transfer (handle_token token) s)
transfer_roundtrip deschedule clock fuel n transfer token b h s empty other v w e g d lt u =
    Yields-imp (Sent token h s) _ (write transfer (handle_token token) s)
      (λ (s', r) k. (k.0, arrive s' r k)) (write_handle transfer token h s v e g d)
  where
    same : (m : ℕ) (p q : Process) (v : Option Handle) → Updates p m v q → get_handle m q ≡ v
    same m p q v k = ground (arith, k.1 m)

    arrive :
        (s' : State) (r : SyscallResult)
        → Sent token h s (s', r)
        → Yields
            (Transferred s.system.current b token h)
            (read deschedule clock fuel 0 (run_as b s'))
    arrive s' r k =
        Yields-imp (Received h [] (run_as b s')) _ (read deschedule clock fuel 0 (run_as b s'))
          (λ (s'', q) m. (
            m.0,
            m.1,
            same m.0 (s'.system.processes b) (s''.system.processes b) (some h) m.4,
            ap (get_handle token) (m.5 s.system.current (λ z. other (sym z)))
                ∙ same token (container s.system) (s'.system.processes s.system.current) none k.2,
            m.2,
          ))
          (read_handle deschedule clock fuel 0 n h [] (run_as b s') refl
            (k.1 ∙ ap (λ ms. ms ++ (handle h ∷ [])) empty) (subst HasTable (sym (k.3 b other)) w) lt
            (rw (k.3 b other, k.5) u))
