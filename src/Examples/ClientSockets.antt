-- ===== src/Examples/ClientSockets.antt =====
-- The socket of the client at concrete inputs: a network that cannot be reached.
use pds_progetto.Comm.Message
use pds_progetto.Cpp.Dialog
use pds_progetto.Cpp.Effect.{◌>>=◌, on, reads, pure}
use pds_progetto.Cpp.Dialog.{and_then, ends}
use pds_progetto.Base.{refl, false, codes, Bool, none, ◌≡◌, arith, ◌↔◌, ◌∷◌, [], some}
use pds_progetto.Comm.Socket.{Asio, refused, failed_with}
use pds_progetto.Comm.Message.{Message, msg_okay}
use pds_progetto.Comm.ClientSocket.{Connection, send_and_receive}
use pds_progetto.Comm.ClientSocket.Threads.{
  Threads, Reach, begin, next, starts, wait_all_async, async_send_and_receive, finishes, running,
  create_new_api, thread_done, thread_at,
}
use pds_progetto.Comm.ClientSocket.Threads.Bounds.{
  WellFormed, Reach-WellFormed, wait_all_async-returns,
}
use pds_progetto.Comm.Message.Archive.Numbers.{numbers}
use pds_progetto.Cpp.Result.{ok}
use pds_progetto.Comm.CommError.{not_connected, comm_error, ce_failure}
use pds_progetto.Comm.ClientSocket.Cookies.{send_and_receive-cookie}
use pds_progetto.Comm.ClientSocket.Retries.{IsBusyFor, send_and_receive-none_iff}

-- A socket that is always refused.
abbrev unreachable : Asio
unreachable = record {
  State = Unit {0};
  has_socket = λ s. false;
  is_open = λ s. false;
  stopped = λ s. false;
  connect = λ s. (refused, s);
  write = λ bytes s. (ok (failed_with not_connected), s);
  read = λ k s. (ok (failed_with not_connected), s);
  shutdown_both = λ s. s;
  release_and_close = λ s. (none, s);
  reset = λ s. s;
}

abbrev offline : Connection unreachable numbers
offline = record {
  socket = record { net = tt; n_retry = 1; keep_alive = false; message = none; last_error = none };
  cookie = codes "c";
  prev_keep_alive = false;
}

-- The connection was refused.
abbrev after_refusal : Connection unreachable numbers
after_refusal = record offline {
  socket = record (offline.socket) {
    last_error = some (comm_error ce_failure "Socket_API::open_conn" "");
  };
}

send_and_receive-cookie_example : after_refusal.cookie ≡ offline.cookie
unfolding send_and_receive and_then ends ◌>>=◌ on reads pure
send_and_receive-cookie_example =
    send_and_receive-cookie unreachable numbers 1 Message.okay msg_okay offline after_refusal false
      refl

send_and_receive-none_iff_example :
    (send_and_receive unreachable numbers 1 Message.okay msg_okay offline ≡ none)
    ↔ IsBusyFor unreachable numbers Message.okay msg_okay 1 offline
send_and_receive-none_iff_example =
    send_and_receive-none_iff unreachable numbers Message.okay msg_okay 1 offline

abbrev started : Threads unreachable numbers
started = record {
  own = offline;
  thread_id = 1;
  threads = (0, running (create_new_api unreachable numbers tt offline) Message.okay msg_okay) ∷ [];
  n_active_threads = 1;
}

abbrev callback : Bool → Connection unreachable numbers → Bool
callback b api = b

async_one :
    async_send_and_receive unreachable numbers 1
      (ok tt)
      Message.okay
      msg_okay
      (record { own = offline; thread_id = 0; threads = []; n_active_threads = 0 })
    ≡ some (ok tt, started)
unfolding async_send_and_receive Dialog.◌>>=◌ Dialog.reads Dialog.modify
async_one = refl

one_thread : Reach unreachable numbers 1 callback offline started
one_thread = next begin (starts (ok tt) Message.okay msg_okay (omega arith) async_one)

Reach-WellFormed_example : WellFormed unreachable numbers started
Reach-WellFormed_example =
    Reach-WellFormed unreachable numbers 1 callback offline started one_thread

-- The thread ends when it, too, has been refused.
abbrev finished : Threads unreachable numbers
finished = thread_done unreachable numbers 0 false after_refusal started

refused_again :
    send_and_receive unreachable numbers 1 Message.okay msg_okay
      (create_new_api unreachable numbers tt offline)
    ≡ some (ok false, after_refusal)
unfolding send_and_receive and_then ends ◌>>=◌ on reads pure
refused_again = refl

no_thread : Reach unreachable numbers 1 callback offline finished
unfolding thread_at
no_thread = next one_thread (
    finishes 0 (create_new_api unreachable numbers tt offline) Message.okay msg_okay refl
      refused_again)

wait_all_async-returns_example :
    (b : Bool) × (t : Threads unreachable numbers) × ((wait_all_async unreachable numbers
          (λ id. false)
          finished
        ≡ some (ok b, t))
      × ((t.threads ≡ []) × (t.thread_id ≡ 0)))
unfolding thread_done
wait_all_async-returns_example =
    wait_all_async-returns unreachable numbers 1 callback offline finished (λ id. false) no_thread
      refl
