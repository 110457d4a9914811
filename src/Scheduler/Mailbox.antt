-- ===== src/Scheduler/Mailbox.antt =====
-- kernel/scheduler/mailbox.h and mailbox.cpp: a queue of messages and a queue of the threads that wait
-- for one. `deschedule`, which takes the current thread off its core, is an operation of the
-- scheduler that the mailbox is given.
pub mod Laws
use reaveros.Prelude.{
  ℕ, zero, suc, ◌-◌, ◌^◌, Bool, true, false, Option, none, some, List, [], ◌∷◌, ◌++◌, ◌==◌, ◌||◌,
  if◌then◌else◌,
}
use reaveros.Prelude.Outcome.{Outcome, done, panic, ◌>>=◌}
use reaveros.Util.Handle.{Handle, has_permissions}
use reaveros.Scheduler.Process.{
  Process, get_handle, register_for_token, Registered, unregister_token,
}
use reaveros.Scheduler.System.{
  System, Thread, SyscallResult, ok, invalid_token, not_allowed, not_ready, put, container,
  schedule,
}

-- `payload`: a handle, or two words of the user's.
pub data Payload : Type 0 where
  handle : Handle → Payload
  user : ℕ → ℕ → Payload

-- What the user passes to a write, and what a read stores: a token in place of the handle. The tag
-- that the user passes need not be one of the two.
pub data Message : Type 0 where
  handle_token : ℕ → Message
  user_message : ℕ → ℕ → Message
  unknown_type : Message

pub record Mailbox : Type 0 where
  pub message_queue : List Payload
  pub waiting_threads : List Thread

-- The mailbox and the rest of the kernel's state.
pub record State : Type 0 where
  pub mailbox : Mailbox
  pub system : System

abbrev pub create_mailbox : Mailbox
create_mailbox = record { message_queue = []; waiting_threads = [] }

-- A waiting thread, the longest waiting one, is handed to the scheduler.
abbrev pub wake : List Thread → State → State
wake [] s = s
wake (t ∷ ts) s = record {
  mailbox = record (s.mailbox) { waiting_threads = ts };
  system = schedule t s.system;
}

abbrev pub enqueue : Payload → State → State
enqueue m s = record s {
  mailbox = record (s.mailbox) { message_queue = s.mailbox.message_queue ++ (m ∷ []) };
}

-- `_push`, which the two overloads of `send` call.
unfoldable pub send : Payload → State → State
send m s = wake s.mailbox.waiting_threads (enqueue m s)

-- The process table of the current container is replaced.
abbrev pub put_container : Process → State → State
put_container p s = record s { system = put s.system.current p s.system }

-- `syscall_rose_mailbox_write_handler`.
unfoldable pub write : ℕ → Message → State → Outcome (State × SyscallResult)
unfolding send
write transfer (handle_token token) s = elim (get_handle token (container s.system)) [
  | none ↦ done (s, invalid_token)
  | some h ↦ elim (has_permissions transfer h) [
    | false ↦ done (s, not_allowed)
    | true ↦ unregister_token token (container s.system) >>= λ p.
        done (send (handle h) (put_container p s), ok)
  ]
]
write transfer (user_message a b) s = done (send (user a b) s, ok)
write transfer unknown_type s = panic

-- What `read` comes to: a result, with the message that it stores, or the thread blocks.
pub data ReadResult : Type 0 where
  returns : SyscallResult → Option Message → ReadResult
  blocks : ReadResult

-- `static_cast<std::uintptr_t>(-1)`.
abbrev pub poll : ℕ
poll = 2 ^ 64 - 1

-- The message at the head of the queue has been taken off.
unfoldable pub deliver : (ℕ → ℕ) → ℕ → Payload → State → Outcome (State × ReadResult)
deliver clock fuel (handle h) s =
    register_for_token clock fuel s.system.readings h (container s.system) >>= λ r. done (
      record s {
        system = record (put s.system.current r.process s.system) { readings = r.readings };
      },
      returns ok (some (handle_token r.token)),
    )
deliver clock fuel (user a b) s = done (s, returns ok (some (user_message a b)))

-- `syscall_rose_mailbox_read_handler`.
unfoldable pub read :
    (System → Thread × System) → (ℕ → ℕ) → ℕ → ℕ → State → Outcome (State × ReadResult)
unfolding deliver
read deschedule clock fuel timeout s =
    if (timeout == poll) || (timeout == 0)
    then (elim s.mailbox.message_queue [
      | [] ↦
          if timeout == poll
          then done (s, returns not_ready none)
          else (let (thread, system) = deschedule s.system in
              done (
                record {
                  mailbox = record (s.mailbox) {
                    waiting_threads = s.mailbox.waiting_threads ++ (thread ∷ []);
                  };
                  system = system;
                },
                blocks,
              ))
      | m ∷ ms ↦
          deliver clock fuel m (record s { mailbox = record (s.mailbox) { message_queue = ms } })
    ])
    else panic
