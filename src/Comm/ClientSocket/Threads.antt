-- ===== src/Comm/ClientSocket/Threads.antt =====
-- The threads of comm/Client_socket_API.cpp. A thread is a step of its own: it starts in
-- `async_send_and_receive`, once there are fewer than the most of them, and it ends when its
-- callback has returned. The constructor of its socket resolves the address: what that comes to is
-- the network of the new socket, or an exception, and an argument of the start.
pub mod Entries
pub mod Bounds
use pds_progetto.Cpp.Dialog.{Dialog, ◌>>=◌, ◌>>◌, pure, reads, modify, within}
use pds_progetto.Comm.Message
use pds_progetto.Comm.Socket.{Asio, Socket, get_last_error}
use pds_progetto.Comm.ClientSocket.{Connection, send_and_receive, keeping}
use pds_progetto.Comm.Message.{Message, MessageType, msg_okay}
use pds_progetto.Base.{
  ℕ, Bool, List, false, suc, some, none, ◌∷◌, Option, ◌-◌, ◌≡◌, [], true, ◌∷◌, not, if◌then◌else◌,
  ltb, ◌==◌, ◌<◌, ◌&&◌,
}
use pds_progetto.Comm.Message.Archive.{Archive}
use pds_progetto.Cpp.Result.{Result, ok, throws}

abbrev pub max_threads : ℕ
max_threads = 4

module _ (A : Asio) (N : Archive) where
  -- A thread with its own connection, or the value of its future.
  pub data Thread : Type 0 where
    running : Connection A N → Message → MessageType → Thread
    ended : Bool → Thread

  pub record Threads : Type 0 where
    pub own : Connection A N
    pub thread_id : ℕ
    pub threads : List (ℕ × Thread)
    pub n_active_threads : ℕ

  -- `create_new_API_`, with the network that its resolver found.
  abbrev pub create_new_api : A.State → Connection A N → Connection A N
  create_new_api net s = record {
    socket = record {
      net = net;
      n_retry = s.socket.n_retry;
      keep_alive = false;
      message = none;
      last_error = none;
    };
    cookie = s.cookie;
    prev_keep_alive = false;
  }

  -- `map::emplace`: an entry that is there stays.
  unfoldable pub emplace : ℕ → Thread → List (ℕ × Thread) → List (ℕ × Thread)
  emplace id t [] = (id, t) ∷ []
  emplace id t ((j, u) ∷ ts) =
      let rest = emplace id t ts in
      if ltb id j then (id, t) ∷ (j, u) ∷ ts else if id == j then (j, u) ∷ ts else (j, u) ∷ rest

  abbrev pub launched : A.State → Message → MessageType → Threads → Threads
  launched net m expected s = record s {
    thread_id = suc s.thread_id;
    n_active_threads = suc s.n_active_threads;
    threads = emplace s.thread_id (running (create_new_api net s.own) m expected) s.threads;
  }

  -- From `thread_id_++` on. The thread is counted before `create_new_API_` is called, and an exception
  -- of that does not take the count back.
  unfoldable pub launch : Result A.State → Message → MessageType → Dialog Threads (Unit {0})
  unfolding emplace
  launch (ok net) m expected s = some (ok tt, launched net m expected s)
  launch (throws e) m expected s = some (
    throws e,
    record s { thread_id = suc s.thread_id; n_active_threads = suc s.n_active_threads },
  )

  abbrev pub on_own : {B : Type 0} → Dialog (Connection A N) B → Dialog Threads B
  on_own = within (λ s. s.own) (λ own s. record s { own = own })

  -- `async_send_and_receive` once the wait for a thread is over.
  unfoldable pub async_send_and_receive :
      ℕ → Result A.State → Message → MessageType → Dialog Threads (Unit {0})
  unfolding send_and_receive Message.okay launch
  async_send_and_receive fuel resolved m expected = do
    keep_alive ← reads (λ s. s.own.socket.keep_alive)
    modify (λ s. record s { own = record (s.own) { prev_keep_alive = keep_alive } })
    elim keep_alive [
      | false ↦ launch resolved m expected
      | true ↦ do
        modify (λ s. record s { own = keeping A N false s.own })
        told ← on_own (send_and_receive A N fuel Message.okay msg_okay)
        launch resolved m expected
    ]

  unfoldable pub thread_at : ℕ → List (ℕ × Thread) → Option Thread
  thread_at id [] = none
  thread_at id ((j, u) ∷ ts) = let rest = thread_at id ts in if id == j then some u else rest

  unfoldable pub end_thread : ℕ → Bool → List (ℕ × Thread) → List (ℕ × Thread)
  end_thread id b [] = []
  end_thread id b ((j, u) ∷ ts) =
      let rest = end_thread id b ts in if id == j then (j, ended b) ∷ ts else (j, u) ∷ rest

  -- The error of a thread that has no message becomes the error of the socket.
  abbrev pub reported : Connection A N → Connection A N → Connection A N
  reported api own = elim (api.socket.message) [
    | some m ↦ own
    | none ↦ record own {
      socket = record (own.socket) { last_error = get_last_error A N api.socket };
    }
  ]

  -- The end of a thread, with the value of its callback and its connection.
  unfoldable pub thread_done : ℕ → Bool → Connection A N → Threads → Threads
  unfolding end_thread get_last_error
  thread_done id b api s = record s {
    own = reported api s.own;
    threads = end_thread id b s.threads;
    n_active_threads = s.n_active_threads - 1;
  }

  -- The status of all threads, if they have ended; `late` are those that `wait_for` gave up.
  unfoldable pub statuses : (ℕ → Bool) → List (ℕ × Thread) → Option Bool
  statuses late [] = some true
  statuses late ((id, running c m e) ∷ ts) = none
  statuses late ((id, ended b) ∷ ts) = elim (statuses late ts) [
    | none ↦ none
    | some rest ↦ some (not (late id) && b && rest)
  ]

  -- `wait_all_async`, where `none` means that it has not returned: to erase a future is to wait for
  -- its thread.
  unfoldable pub wait_all_async : (ℕ → Bool) → Dialog Threads Bool
  unfolding statuses
  wait_all_async late s = elim (statuses late s.threads) [
    | none ↦ none
    | some status ↦ some (
      ok status,
      record s { own = keeping A N s.own.prev_keep_alive s.own; thread_id = 0; threads = [] },
    )
  ]

  module _ (fuel : ℕ) (cb : Bool → Connection A N → Bool) where
    -- What happens to the object, one event at a time.
    pub data Step : Threads → Threads → Type 0 where
      sends :
          {s t : Threads} {b : Bool} (m : Message) (expected : MessageType)
          → on_own (send_and_receive A N fuel m expected) s ≡ some (ok b, t)
          → Step s t
      starts :
          {s t : Threads} (resolved : Result A.State) (m : Message) (expected : MessageType)
          → s.n_active_threads < max_threads
          → async_send_and_receive fuel resolved m expected s ≡ some (ok tt, t)
          → Step s t
      finishes :
          {s : Threads} {b : Bool} {api : Connection A N} (id : ℕ) (c : Connection A N)
          (m : Message) (expected : MessageType)
          → thread_at id s.threads ≡ some (running c m expected)
          → send_and_receive A N fuel m expected c ≡ some (ok b, api)
          → Step s (thread_done id (cb b api) api s)
      waits :
          {s t : Threads} {b : Bool} (late : ℕ → Bool)
          → wait_all_async late s ≡ some (ok b, t)
          → Step s t

    pub data Reach (own : Connection A N) : Threads → Type 0 where
      begin : Reach own (record { own = own; thread_id = 0; threads = []; n_active_threads = 0 })
      next : {s t : Threads} → Reach own s → Step s t → Reach own t
