-- ===== src/Comm/ClientApi/Threaded.antt =====
-- The client socket of comm/Client_socket_API.cpp as the interface of comm/Client_API.cpp: its
-- connection and its threads, on fuel. A call that does not return is an exception that nothing
-- catches, and a thread that is started runs to its end at once, if it has one.
use pds_progetto.Base.{ℕ, Bool, List, Option, none, some, ◌∷◌, ◌++◌, [], refl}
use pds_progetto.Cpp.Result.{ok, throws, Result, runtime_error}
use pds_progetto.Cpp.Effect.{Effect, on}
use pds_progetto.Cpp.Dialog.{Dialog}
use pds_progetto.Comm.Socket.{Asio}
use pds_progetto.Comm.Message.{Message, MessageType}
use pds_progetto.Comm.Message.Archive.{Archive}
use pds_progetto.Comm.ClientSocket.{Connection, send_and_receive}
use pds_progetto.Comm.ClientSocket.Threads.{
  Threads, Thread, running, ended, on_own, async_send_and_receive, wait_all_async, thread_at,
  thread_done,
}
use pds_progetto.Comm.ClientApi.{ClientSocket, Callback}
use pds_progetto.Comm.ClientApi.Compare.{IsTraced}

-- `no_message` is what `get_message` points to before any message has come.
module _ (A : Asio) (N : Archive) (resolved : Result A.State) (fuel : ℕ)
    (called_back : Callback → Bool → Connection A N → Bool) (late : ℕ → Bool)
    (no_message : Message) where
  -- The object, and the messages that `async_send_and_receive` was called with.
  record Handing : Type 0 where
    threads : Threads A N
    handed : List Message

  abbrev on_threads : {B : Type 0} → Effect (Threads A N) B → Effect Handing B
  on_threads = on (λ s. s.threads) (λ threads s. record s { threads = threads })

  abbrev uncaught : {S B : Type 0} → Dialog S B → Effect S B
  uncaught m s = elim (m s) [ none ↦ (throws runtime_error, s) | some r ↦ r ]

  abbrev left_by_call : {B : Type 0} → Threads A N → Option (Result B × Threads A N) → Threads A N
  left_by_call s none = s
  left_by_call s (some (r, t)) = t

  -- The thread with this number runs to its end.
  abbrev run_thread : ℕ → Callback → Option (Thread A N) → Threads A N → Threads A N
  run_thread id c none s = s
  run_thread id c (some (ended b)) s = s
  run_thread id c (some (running own m expected)) s =
      elim (send_and_receive A N fuel m expected own) [
        | none ↦ s
        | some (r, api) ↦ elim r [
          | throws e ↦ s
          | ok b ↦ thread_done A N id (called_back c b api) api s
        ]
      ]

  abbrev started : Message → MessageType → Callback → Threads A N → Threads A N
  started m expected c s =
      let t = left_by_call s (async_send_and_receive A N fuel resolved m expected s) in
      run_thread s.thread_id c (thread_at A N s.thread_id t.threads) t

  abbrev threaded : ClientSocket
  threaded = record {
    State = Handing;
    send_and_receive =
        λ m expected. on_threads (uncaught (on_own A N (send_and_receive A N fuel m expected)));
    async_send_and_receive = λ m expected c s. record {
      threads = started m expected c s.threads;
      handed = s.handed ++ m ∷ [];
    };
    wait_all_async = on_threads (uncaught (wait_all_async A N late));
    get_message = λ s. elim (s.threads.own.socket.message) [ none ↦ no_message | some m ↦ m ];
  }

  threaded-IsTraced : IsTraced threaded
  unfolding on
  threaded-IsTraced = record {
    launched = λ s. s.handed;
    launches = λ m expected c s. refl;
    waits = λ s. refl;
    sends = λ m expected s. refl;
  }
