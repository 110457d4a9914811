-- ===== src/Scheduler/System.antt =====
-- The state that the system calls of kernel/scheduler share: the processes by address, the current
-- one, the threads handed to the scheduler, and the timer readings taken so far.
use reaveros.Prelude.{◌≡◌, ◌≢◌, arith, ℕ, ◌==◌, if◌then◌else◌, List, [], ◌∷◌, ◌++◌}
use reaveros.Scheduler.Process.{Process}

-- The enumeration `result` of kernel/vdso/meta.thorn.
pub data SyscallResult : Type 0 where
  ok invalid_token invalid_handle wrong_handle_type not_allowed : SyscallResult
  invalid_pointers invalid_arguments not_ready : SyscallResult

-- A thread with its container, the registers that a start sets, and its time stamp.
pub record Thread : Type 0 where
  pub container : ℕ
  pub instruction_pointer : ℕ
  pub stack_pointer : ℕ
  pub argument : ℕ
  pub timestamp : ℕ

pub record System : Type 0 where
  pub processes : ℕ → Process
  pub current : ℕ
  pub ready : List Thread
  pub readings : ℕ

-- A write to the process at an address.
abbrev pub put : ℕ → Process → System → System
put a p w = record w { processes = λ b. if a == b then p else w.processes b }

-- `get_container()` of the current thread.
abbrev pub container : System → Process
container w = w.processes w.current

-- `scheduler::schedule`: the thread is handed to the scheduler.
abbrev pub schedule : Thread → System → System
schedule t w = record w { ready = w.ready ++ (t ∷ []) }

pub put_self : (a : ℕ) (p : Process) (w : System) → (put a p w).processes a ≡ p
put_self a p w = ground arith

pub put_other :
    (a b : ℕ) (p : Process) (w : System) → a ≢ b → (put a p w).processes b ≡ w.processes b
put_other a b p w n = ground arith
