-- ===== src/Scheduler/Tests.antt =====
-- Runs of the system calls of kernel/scheduler with two processes, at the addresses 1 and 2: the first
-- holds one handle under the token 5, and the second none.
use reaveros.Prelude.{
  ℕ, ◌+◌, ◌≡◌, refl, true, false, none, some, [], ◌∷◌, arith, ◌==◌, if◌then◌else◌,
}
use reaveros.Prelude.Int.{pos}
use reaveros.Prelude.Outcome.{done, panic, Yields}
use reaveros.Util.Handle.{Handle, has_permissions}
use reaveros.Util.AvlTree.{leaf, node}
use reaveros.Util.AvlTree.Container.{find}
use reaveros.Util.AvlTree.Search
use reaveros.Util.AvlTree.Search.{find_from}
use reaveros.Scheduler.Process.{
  Process, get_handle, find_token, token_at, register_for_token, unregister_token,
}
use reaveros.Scheduler.Process.Table.{
  HasTable, Updates, takes_double, register_for_token-Updates, unregister_token-Updates,
  unregister_token-panic,
}
use reaveros.Scheduler.System.{System, Thread, ok, invalid_token}
use reaveros.Scheduler.Start.{token_release, process_start}
use reaveros.Scheduler.Start.Laws.{
  token_release_panics, process_start_refused, Started, process_start-Started,
}
use reaveros.Scheduler.Mailbox.{State, handle, user, handle_token, write, read, create_mailbox}
use reaveros.Scheduler.Mailbox.Laws.{
  Queued, Sent, Received, Transferred, run_as, write_refused, send-queue, write_handle, read_handle,
  transfer_roundtrip,
}

abbrev port : Handle
port = record { address = 64; kind = 1; payload = 7; permissions = 3 }

abbrev holder : Process
holder = record {
  address = 1;
  started = true;
  address_space = 0;
  handles = record {
    root = node leaf (record { token = 5; handle = port }) (pos 0) leaf;
    size = 1;
  };
}

abbrev fresh : Process
fresh = record {
  address = 2;
  started = false;
  address_space = 0;
  handles = record { root = leaf; size = 0 };
}

abbrev two_processes : ℕ → Process
two_processes a = if a == 1 then holder else fresh

abbrev kernel : System
kernel = record { processes = two_processes; current = 1; ready = []; readings = 0 }

abbrev idle : State
idle = record { mailbox = create_mailbox; system = kernel }

abbrev ticks : ℕ → ℕ
ticks n = 100 + n

abbrev waiter : Thread
waiter = record {
  container = 2;
  instruction_pointer = 0;
  stack_pointer = 0;
  argument = 0;
  timestamp = 0;
}

abbrev no_thread : System → Thread × System
no_thread w = (waiter, w)

holder-HasTable : HasTable holder
holder-HasTable = record { balanced = ground arith; sorted = (tt, tt); counted = refl }

fresh-HasTable : HasTable fresh
fresh-HasTable = record { balanced = tt; sorted = tt; counted = refl }

get_port : get_handle 5 holder ≡ some port
unfolding get_handle find_token find Search.find find_from
get_port = refl

no_handle : get_handle 6 holder ≡ none
unfolding get_handle find_token find Search.find find_from
no_handle = refl

fresh_token : (t : ℕ) → get_handle t fresh ≡ none
unfolding get_handle find_token find Search.find find_from
fresh_token t = refl

not_double : takes_double (find_token 5 holder) ≡ false
unfolding find_token find Search.find find_from
not_double = refl

may_transfer : has_permissions 1 port ≡ true
unfolding has_permissions
may_transfer = refl

may_not_transfer : has_permissions 4 port ≡ false
unfolding has_permissions
may_not_transfer = refl

register_for_token-Updates_run :
    Yields
      (λ r. (get_handle r.token fresh ≡ none) × Updates fresh r.token (some port) r.process)
      (register_for_token ticks 1 0 port fresh)
register_for_token-Updates_run =
    register_for_token-Updates ticks 1 0 0 port fresh fresh-HasTable (omega arith)
      (fresh_token (token_at fresh port 100))

unregister_token-Updates_run : Yields (Updates holder 5 none) (unregister_token 5 holder)
unregister_token-Updates_run =
    unregister_token-Updates 5 port holder holder-HasTable get_port not_double

unregister_token-panic_run : unregister_token 6 holder ≡ panic
unregister_token-panic_run = unregister_token-panic 6 holder no_handle

token_release_panics_run : token_release 6 kernel ≡ panic
token_release_panics_run = token_release_panics 6 kernel (λ e. omega arith) no_handle

process_start_refused_run : kernel ≡ kernel
process_start_refused_run =
    process_start_refused ticks 1 1 2 4096 8192 6 kernel kernel invalid_token refused (λ e. cc)
  where
    refused : process_start ticks 1 1 2 4096 8192 6 kernel ≡ done (kernel, invalid_token)
    refused = unfold process_start in rw (no_handle, process_start)

process_start-Started_example :
    Yields
      (Started ticks 1 1 2 4096 8192 5 port kernel)
      (process_start ticks 1 1 2 4096 8192 5 kernel)
process_start-Started_example =
    process_start-Started ticks 1 1 2 4096 8192 5 0 port kernel (λ e. omega arith) holder-HasTable
      fresh-HasTable refl get_port may_transfer not_double (omega arith)
      (fresh_token (token_at fresh port 100))

send-queue_run : Queued (user 3 4) idle
send-queue_run = send-queue (user 3 4) idle

write_refused_run : idle ≡ idle
write_refused_run = write_refused 1 (handle_token 6) idle idle invalid_token refused (λ e. cc)
  where
    refused : write 1 (handle_token 6) idle ≡ done (idle, invalid_token)
    refused = unfold write in rw (no_handle, write)

write_handle_run : Yields (Sent 5 port idle) (write 1 (handle_token 5) idle)
write_handle_run = write_handle 1 5 port idle holder-HasTable get_port may_transfer not_double

-- The first process reads a handle that is on its way.
abbrev loaded : State
loaded = record {
  mailbox = record { message_queue = handle port ∷ []; waiting_threads = [] };
  system = record kernel { current = 2 };
}

read_handle_run : Yields (Received port [] loaded) (read no_thread ticks 1 0 loaded)
read_handle_run =
    read_handle no_thread ticks 1 0 0 port [] loaded refl refl fresh-HasTable (omega arith)
      (fresh_token (token_at fresh port 100))

transfer_roundtrip_example :
    Yields
      (λ (s', r).
        (r ≡ ok) × Yields (Transferred 1 2 5 port) (read no_thread ticks 1 0 (run_as 2 s')))
      (write 1 (handle_token 5) idle)
transfer_roundtrip_example =
    transfer_roundtrip no_thread ticks 1 0 1 5 2 port idle refl (λ e. omega arith) holder-HasTable
      fresh-HasTable get_port may_transfer not_double (omega arith)
      (fresh_token (token_at fresh port 100))
