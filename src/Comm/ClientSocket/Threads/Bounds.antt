-- ===== src/Comm/ClientSocket/Threads/Bounds.antt =====
-- How many threads of comm/Client_socket_API.cpp run at once, and how they are numbered.
use pds_progetto.Comm.ClientSocket.Threads.Entries.{IsNumbered, running_count}
use pds_progetto.Comm.Message
use pds_progetto.Base.{
  refl, ◌∙◌, ℕ, ◌≤◌, ◌≡◌, arith, suc, sym, ap, [], false, Bool, ◌<◌, Bool-cases, some, inl, inr,
  true, subst, Option-cases,
}
use pds_progetto.Cpp.Dialog.{
  Dialog, ◌>>=◌, ◌>>◌, reads, modify, IfOk, then-IfOk, within-IfOk, every-IfOk, IfOk-some,
}
use pds_progetto.Comm.ClientSocket.{Connection, send_and_receive, keeping}
use pds_progetto.Comm.ClientSocket.Threads.{
  async_send_and_receive, running, thread_at, thread_done, statuses, Step, sends, starts, finishes,
  waits, Reach, begin, next, wait_all_async, Threads, launched, on_own, running, create_new_api,
  launch,
}
use pds_progetto.Comm.Socket.{Asio}
use pds_progetto.Comm.Message.Archive.{Archive}
use pds_progetto.Comm.Message.{Message, MessageType, msg_okay}
use pds_progetto.Cpp.Result.{ok, Result, throws}
use pds_progetto.Comm.ClientSocket.Threads.Entries.{
  emplace-IsNumbered, end_thread-running_count, ended-statuses, running_count,
  emplace-running_count, end_thread-IsNumbered, statuses-running_count,
}

module _ (A : Asio) (N : Archive) where
  -- The count is that of the running threads, of which there are at most four, and the threads are
  -- numbered from 0.
  pub record WellFormed (s : Threads A N) : Type 0 where
    pub numbered : IsNumbered A N 0 s.thread_id s.threads
    pub counted : s.n_active_threads ≡ running_count A N s.threads
    pub bounded : s.n_active_threads ≤ 4

  launched-WellFormed :
      (net : A.State) (m : Message) (e : MessageType) (s : Threads A N)
      → WellFormed s
      → s.n_active_threads < 4
      → WellFormed (launched A N net m e s)
  launched-WellFormed net m e s w few = record {
    numbered = emplace-IsNumbered A N 0 s.thread_id _ s.threads w.numbered;
    counted =
        ap suc w.counted
        ∙ sym (
            emplace-running_count A N 0 s.thread_id (create_new_api A N net s.own) m e s.threads
              w.numbered);
    bounded = few;
  }

  launch-WellFormed :
      (resolved : Result A.State) (m : Message) (e : MessageType) (s : Threads A N)
      → WellFormed s
      → s.n_active_threads < 4
      → IfOk (λ _ t. WellFormed t) (launch A N resolved m e s)
  unfolding launch modify
  launch-WellFormed (ok net) m e s w few = launched-WellFormed net m e s w few
  launch-WellFormed (throws x) m e s w few = tt

  -- Another connection changes nothing of it.
  WellFormed-own :
      (own : Connection A N) (s : Threads A N) → WellFormed s → WellFormed (record s { own = own })
  WellFormed-own own s w = record {
    numbered = w.numbered;
    counted = w.counted;
    bounded = w.bounded;
  }

  thread_done-WellFormed :
      (id : ℕ) (b : Bool) (c api : Connection A N) (m : Message) (e : MessageType) (s : Threads A N)
      → thread_at A N id s.threads ≡ some (running c m e)
      → WellFormed s
      → WellFormed (thread_done A N id b api s)
  unfolding thread_done
  thread_done-WellFormed id b c api m e s there w =
      let fewer = end_thread-running_count A N id b c m e s.threads there in
      record {
        numbered = end_thread-IsNumbered A N id b 0 s.thread_id s.threads w.numbered;
        counted = omega (arith, fewer, w.counted);
        bounded = omega (arith, w.bounded);
      }

  on_own-WellFormed :
      (m : Dialog (Connection A N) Bool) (s : Threads A N)
      → WellFormed s
      → IfOk (λ _ t. WellFormed t × (t.n_active_threads ≡ s.n_active_threads)) (on_own A N m s)
  on_own-WellFormed m s w =
      within-IfOk (λ s. s.own) (λ own s. record s { own = own })
        (λ _ t. WellFormed t × (t.n_active_threads ≡ s.n_active_threads)) m s
        (every-IfOk _ (m s.own) λ b own. (WellFormed-own own s w, refl))

  -- The step behind the note of `keep_alive`.
  starting : ℕ → Result A.State → Message → MessageType → Bool → Dialog (Threads A N) (Unit {0})
  starting fuel resolved m e false = launch A N resolved m e
  starting fuel resolved m e true =
      modify (λ s. record s { own = keeping A N false s.own })
      >> (on_own A N (send_and_receive A N fuel Message.okay msg_okay) >>= λ told.
          launch A N resolved m e)

  starting-WellFormed :
      (fuel : ℕ) (resolved : Result A.State) (m : Message) (e : MessageType) (keep : Bool)
      (s : Threads A N)
      → WellFormed s
      → s.n_active_threads < 4
      → IfOk (λ _ t. WellFormed t) (starting fuel resolved m e keep s)
  unfolding starting modify
  starting-WellFormed fuel resolved m e false s w few = launch-WellFormed resolved m e s w few
  starting-WellFormed fuel resolved m e true s w few =
      let told = on_own A N (send_and_receive A N fuel Message.okay msg_okay) in
      let off : Threads A N → Threads A N = λ s. record s { own = keeping A N false s.own } in
      then-IfOk (λ _ t. t ≡ off s) (λ _ t. WellFormed t) (modify off)
        (λ _. told >>= λ _. launch A N resolved m e) s refl
        λ _ u same.
          then-IfOk (λ _ t. WellFormed t × (t.n_active_threads ≡ u.n_active_threads))
            (λ _ t. WellFormed t) told (λ _. launch A N resolved m e) u
            (on_own-WellFormed (send_and_receive A N fuel Message.okay msg_okay) u
              (subst WellFormed (sym same) (WellFormed-own (keeping A N false s.own) s w)))
            λ _ t h.
              launch-WellFormed resolved m e t h.0
                (let count = ap (λ u. u.n_active_threads) same in omega (arith, h.1, count, few))

  async_send_and_receive-starting :
      (fuel : ℕ) (resolved : Result A.State) (m : Message) (e : MessageType) (s : Threads A N)
      → async_send_and_receive A N fuel resolved m e s
        ≡ starting fuel resolved m e s.own.socket.keep_alive
            (record s { own = record (s.own) { prev_keep_alive = s.own.socket.keep_alive } })
  unfolding async_send_and_receive starting reads modify ◌>>=◌
  async_send_and_receive-starting fuel resolved m e s = elim (Bool-cases s.own.socket.keep_alive) [
    | inl on ↦ simp (on)
    | inr off ↦ simp (off)
  ]

  async_send_and_receive-WellFormed :
      (fuel : ℕ) (resolved : Result A.State) (m : Message) (e : MessageType) (s : Threads A N)
      → WellFormed s
      → s.n_active_threads < 4
      → IfOk (λ _ t. WellFormed t) (async_send_and_receive A N fuel resolved m e s)
  async_send_and_receive-WellFormed fuel resolved m e s w few =
      let noted = record s { own = record (s.own) { prev_keep_alive = s.own.socket.keep_alive } } in
      rw (async_send_and_receive-starting fuel resolved m e s) (
        starting-WellFormed fuel resolved m e s.own.socket.keep_alive noted (WellFormed-own _ s w)
          few)

  waited-WellFormed :
      (own : Connection A N) (s : Threads A N)
      → WellFormed s
      → running_count A N s.threads ≡ 0
      → WellFormed (record s { own = own; thread_id = 0; threads = [] })
  unfolding IsNumbered running_count
  waited-WellFormed own s w free = record {
    numbered = refl;
    counted = w.counted ∙ free;
    bounded = w.bounded;
  }

  wait_all_async-WellFormed :
      (late : ℕ → Bool) (s : Threads A N)
      → WellFormed s
      → IfOk (λ _ t. WellFormed t) (wait_all_async A N late s)
  unfolding wait_all_async
  wait_all_async-WellFormed late s w = elim (Option-cases (statuses A N late s.threads)) [
    | inl none_ ↦ rw (wait_all_async, none_) tt
    | inr (b, some_) ↦
        rw (wait_all_async, some_)
          (waited-WellFormed _ s w (statuses-running_count A N late s.threads b some_))
  ]

  Step-WellFormed :
      (fuel : ℕ) (cb : Bool → Connection A N → Bool) (s t : Threads A N)
      → WellFormed s
      → Step A N fuel cb s t
      → WellFormed t
  Step-WellFormed fuel cb s t w (sends m e sent) =
      (IfOk-some _ (on_own A N (send_and_receive A N fuel m e) s) _ t (on_own-WellFormed _ s w)
        sent).0
  Step-WellFormed fuel cb s t w (starts resolved m e few started) =
      IfOk-some _ (async_send_and_receive A N fuel resolved m e s) tt t
        (async_send_and_receive-WellFormed fuel resolved m e s w few) started
  Step-WellFormed fuel cb s t w (finishes {api = api} id c m e there sent) =
      thread_done-WellFormed id _ c api m e s there w
  Step-WellFormed fuel cb s t w (waits late waited) =
      IfOk-some _ (wait_all_async A N late s) _ t (wait_all_async-WellFormed late s w) waited

  -- After any events, none of which throws, from an object without threads: `n_active_threads_` is
  -- the number of threads that run, there are at most four of them, and the threads in the map are
  -- numbered from 0 up to `thread_id_`.
  pub Reach-WellFormed :
      (fuel : ℕ) (cb : Bool → Connection A N → Bool) (own : Connection A N) (s : Threads A N)
      → Reach A N fuel cb own s
      → WellFormed s
  unfolding IsNumbered running_count
  Reach-WellFormed fuel cb own s begin = record {
    numbered = refl;
    counted = refl;
    bounded = ground arith;
  }
  Reach-WellFormed fuel cb own s (next {s = r} before step) =
      Step-WellFormed fuel cb r s (Reach-WellFormed fuel cb own r before) step

  -- After any events, none of which throws, that leave `n_active_threads_` at 0, `wait_all_async` returns, and the map is
  -- empty and the numbers begin at 0 again.
  pub wait_all_async-returns :
      (fuel : ℕ) (cb : Bool → Connection A N → Bool) (own : Connection A N) (s : Threads A N)
      (late : ℕ → Bool)
      → Reach A N fuel cb own s
      → s.n_active_threads ≡ 0
      → (b : Bool) × (t : Threads A N) × ((wait_all_async A N late s ≡ some (ok b, t))
          × ((t.threads ≡ []) × (t.thread_id ≡ 0)))
  unfolding wait_all_async
  wait_all_async-returns fuel cb own s late reached none_ =
      let w = Reach-WellFormed fuel cb own s reached in
      let (b, statuses_) = ended-statuses A N late s.threads (sym w.counted ∙ none_) in
      (
        b,
        record s { own = keeping A N s.own.prev_keep_alive s.own; thread_id = 0; threads = [] },
        (rw (wait_all_async, statuses_) refl, (refl, refl)),
      )
