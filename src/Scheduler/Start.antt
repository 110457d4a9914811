-- ===== src/Scheduler/Start.antt =====
-- `syscall_rose_process_start_handler` and `syscall_rose_token_release_handler` of
-- kernel/scheduler/process.cpp. The bit `transfer` comes from the generated header, and the timer's
-- readings from the hardware; the loop of `register_for_token` has `fuel` rounds.
pub mod Laws
use reaveros.Prelude.{ℕ, zero, suc, Bool, true, false, Option, none, some, ◌==◌, if◌then◌else◌}
use reaveros.Prelude.Outcome.{Outcome, done, ◌>>=◌}
use reaveros.Util.Handle.{Handle, has_permissions}
use reaveros.Scheduler.Process.{
  Process, get_handle, register_for_token, Registered, unregister_token,
}
use reaveros.Scheduler.System.{
  System, Thread, SyscallResult, ok, invalid_token, not_allowed, invalid_arguments, put, container,
  schedule,
}

unfoldable pub token_release : ℕ → System → Outcome (System × SyscallResult)
token_release token w =
    if token == 0
    then done (w, ok)
    else (unregister_token token (container w) >>= λ p. done (put w.current p w, ok))

module _ (clock : ℕ → ℕ) (fuel transfer : ℕ) where
  -- From the point where the target is marked as started: the handle leaves the current process and
  -- enters the target, under a token that is the first argument of the new thread.
  unfoldable pub hand_over : ℕ → ℕ → ℕ → ℕ → Handle → System → Outcome (System × SyscallResult)
  hand_over target entrypoint top_of_stack token h w = unregister_token token (container w) >>= λ p.
      register_for_token clock fuel w.readings h ((put w.current p w).processes target) >>= λ r.
      done (
        schedule
            (record {
              container = target;
              instruction_pointer = entrypoint;
              stack_pointer = top_of_stack;
              argument = r.token;
              timestamp = clock r.readings;
            })
            (record (put target (record (r.process) { started = true }) (put w.current p w)) {
              readings = suc r.readings;
            }),
        ok,
      )

  unfoldable pub process_start : ℕ → ℕ → ℕ → ℕ → System → Outcome (System × SyscallResult)
  process_start target entrypoint top_of_stack token w = elim (get_handle token (container w)) [
    | none ↦ done (w, invalid_token)
    | some h ↦ elim (has_permissions transfer h) [
      | false ↦ done (w, not_allowed)
      | true ↦ elim (w.processes target).started [
        | true ↦ done (w, invalid_arguments)
        | false ↦
            hand_over target entrypoint top_of_stack token h
              (put target (record (w.processes target) { started = true }) w)
      ]
    ]
  ]
