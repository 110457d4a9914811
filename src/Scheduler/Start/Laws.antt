-- ===== src/Scheduler/Start/Laws.antt =====
-- The start of a process in kernel/scheduler/process.cpp.
use reaveros.Prelude.{
  ℕ, suc, ◌+◌, ◌<◌, ◌≡◌, ◌≢◌, refl, sym, ap, ◌∙◌, true, false, Option, none, some, [], ◌∷◌, ◌++◌,
  arith,
}
use reaveros.Prelude.Outcome.{done, panic, Yields, Yields-bind, Yields-imp}
use reaveros.Util.Handle.{Handle, has_permissions}
use reaveros.Scheduler.Process.{
  Process, get_handle, find_token, token_at, unregister_token, register_for_token, Registered,
}
use reaveros.Scheduler.Process.Table.{
  HasTable, Updates, takes_double, unregister_token-Updates, unregister_token-panic,
  register_for_token-Updates,
}
use reaveros.Scheduler.System.{
  System, Thread, SyscallResult, ok, put, container, schedule, put_self, put_other,
}
use reaveros.Scheduler.Start.{token_release, hand_over, process_start}

-- The release of a token that is not in use is no error of the caller's: the kernel panics.
pub token_release_panics :
    (token : ℕ) (w : System)
    → token ≢ 0
    → get_handle token (container w) ≡ none
    → token_release token w ≡ panic
unfolding token_release
token_release_panics token w n e = ground (arith, unregister_token-panic token (container w) e)

get_handle-started :
    (token : ℕ) (p : Process) → get_handle token (record p { started = true }) ≡ get_handle token p
unfolding get_handle find_token
get_handle-started token p = refl

HasTable-started : (p : Process) → HasTable p → HasTable (record p { started = true })
HasTable-started p v = v

updated :
    (p q : Process) (token : ℕ) (v : Option Handle) → Updates p token v q → get_handle token q ≡ v
updated p q token v k = ground (arith, k.1 token)

module _ (clock : ℕ → ℕ) (fuel transfer : ℕ) where
  hand_over-ok :
      (target entrypoint stack token : ℕ) (h : Handle) (w w' : System) (r : SyscallResult)
      → hand_over clock fuel transfer target entrypoint stack token h w ≡ done (w', r)
      → r ≡ ok
  unfolding hand_over
  hand_over-ok target entrypoint stack token h w w' r e = ground arith

  -- A start that is refused changes nothing.
  pub process_start_refused :
      (target entrypoint stack token : ℕ) (w w' : System) (r : SyscallResult)
      → process_start clock fuel transfer target entrypoint stack token w ≡ done (w', r)
      → r ≢ ok
      → w' ≡ w
  unfolding process_start
  process_start_refused target entrypoint stack token w w' r e n = grind (arith, hand_over-ok)

  -- What a start leaves: the bootstrap handle has moved, and a thread at the entry point waits to run.
  abbrev pub Started : ℕ → ℕ → ℕ → ℕ → Handle → System → System × SyscallResult → Type 0
  Started target entrypoint stack token h w (w', r) =
      (t : ℕ) × (now : ℕ) × (r ≡ ok)
      × ((w'.processes target).started ≡ true)
      × (get_handle t (w'.processes target) ≡ some h)
      × (get_handle token (w'.processes w.current) ≡ none)
      × (w'.ready
          ≡ w.ready
            ++ (record {
              container = target;
              instruction_pointer = entrypoint;
              stack_pointer = stack;
              argument = t;
              timestamp = now;
            }
                ∷ []))

  -- A process that has not been started is started by another one that holds a transferable
  -- bootstrap handle: the handle leaves the starter's table and enters the new process's, under a
  -- token that is the argument of the one thread that is scheduled, at the entry point. The tables of
  -- both are valid, the starter's tree is not of the shape in which `erase` takes a double rotation,
  -- and some reading of the timer among the next `fuel` gives a token that the new process does not
  -- use.
  pub process_start-Started :
      (target entrypoint stack token n : ℕ) (h : Handle) (w : System)
      → w.current ≢ target
      → HasTable (container w)
      → HasTable (w.processes target)
      → (w.processes target).started ≡ false
      → get_handle token (container w) ≡ some h
      → has_permissions transfer h ≡ true
      → takes_double (find_token token (container w)) ≡ false
      → n < fuel
      → get_handle (token_at (w.processes target) h (clock (w.readings + n))) (w.processes target)
        ≡ none
      → Yields
          (Started target entrypoint stack token h w)
          (process_start clock fuel transfer target entrypoint stack token w)
  unfolding process_start
  process_start-Started target entrypoint stack token n h w other v u fresh e g d lt f =
      rw (e, process_start) (rw (g, process_start) (rw (fresh, process_start) handed))
    where
      marked : Process
      marked = record (w.processes target) { started = true }

      mark : System
      mark = put target marked w

      same : container mark ≡ container w
      same = put_other target w.current marked w (λ z. other (sym z))

      there : (p : Process) → (put w.current p mark).processes target ≡ marked
      there p = put_other w.current target p mark other ∙ put_self target marked w

      -- The state in which the thread is scheduled.
      running : Process → Registered → System
      running p r =
          record (put target (record (r.process) { started = true }) (put w.current p mark)) {
            readings = suc r.readings;
          }

      thread : Registered → Thread
      thread r = record {
        container = target;
        instruction_pointer = entrypoint;
        stack_pointer = stack;
        argument = r.token;
        timestamp = clock r.readings;
      }

      arrived :
          (p : Process) (r : Registered)
          → Updates (container w) token none p
          → Updates marked r.token (some h) r.process
          → Started target entrypoint stack token h w (schedule (thread r) (running p r), ok)
      arrived p r k m = (
        r.token,
        clock r.readings,
        refl,
        ap (λ q. q.started)
            (put_self target (record (r.process) { started = true }) (put w.current p mark)),
        ap (get_handle r.token)
              (put_self target (record (r.process) { started = true }) (put w.current p mark))
            ∙ get_handle-started r.token r.process
            ∙ updated marked r.process r.token (some h) m,
        ap (get_handle token) (
              put_other target w.current (record (r.process) { started = true })
                (put w.current p mark) (λ z. other (sym z))
              ∙ put_self w.current p mark)
            ∙ updated (container w) p token none k,
        refl,
      )

      handed :
          Yields
            (Started target entrypoint stack token h w)
            (hand_over clock fuel transfer target entrypoint stack token h mark)
      handed =
          unfold hand_over in
          Yields-bind (Updates (container w) token none) _ (unregister_token token (container mark))
            _ (rw (same) (unregister_token-Updates token h (container w) v e d))
            λ p k.
              Yields-bind (λ (r : Registered). Updates marked r.token (some h) r.process) _
                (register_for_token clock fuel w.readings h
                  ((put w.current p mark).processes target))
                _
                (rw (there p) (
                  Yields-imp
                    (λ (r : Registered).
                      (get_handle r.token marked ≡ none)
                      × Updates marked r.token (some h) r.process)
                    _ (register_for_token clock fuel w.readings h marked) (λ r m. m.1)
                    (register_for_token-Updates clock fuel w.readings n h marked
                      (HasTable-started (w.processes target) u) lt
                      (get_handle-started (token_at (w.processes target) h (clock (w.readings + n)))
                          (w.processes target)
                        ∙ f))))
                (λ r m. arrived p r k m)
