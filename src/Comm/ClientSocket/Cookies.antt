-- ===== src/Comm/ClientSocket/Cookies.antt =====
-- What `send_and_receive` of comm/Client_socket_API.cpp does to `cookie_`.
use pds_progetto.Base.{
  refl, ◌∙◌, Text, ◌≡◌, true, Bool-cases, inl, inr, false, Bool, Option, some, same_text, none, not,
  if◌then◌else◌, ◌||◌, ap, ◌&&◌, sym, ℕ, suc, zero,
}
use pds_progetto.Comm.Socket.{close_conn, Asio, Socket, shutdown, released, noted, usable}
use pds_progetto.Comm.ClientSocket.{
  Connection, Exchanged, gives_up, goes_on, retries, exchange, finish, cookie_after, store_cookie,
  kept_again, send_and_receive, answered,
}
use pds_progetto.Cpp.Effect.{
  ◌>>=◌, pure, modify, Ends, bind-Ends, pure-Ends, modify-Ends, on-Ends, never, weaken-Ends,
}
use pds_progetto.Comm.Message.Archive.{Archive}
use pds_progetto.Comm.Message.{Message, MessageType, same_code, msg_end, cookie_keep_the_same}
use pds_progetto.Comm.CommError.{ErrorCode}
use pds_progetto.Cpp.Dialog.{IfOk, ends, ends-IfOk, and_then-IfOk, Dialog}
use pds_progetto.Cpp.Result.{ok}
use pds_progetto.Comm.ClientSocket.Kept.{exchange-Keeps}

module _ (A : Asio) (N : Archive) where
  noted-message : (ec : Option ErrorCode) (s : Socket A N) → (noted A N ec s).message ≡ s.message
  noted-message none s = refl
  noted-message (some ec) s = refl

  released-message : (s : Socket A N) → (released A N s).message ≡ s.message
  unfolding released
  released-message s = elim (Bool-cases (A.is_open s.net)) [
    | inl e ↦ rw (e) (
        noted-message (A.release_and_close s.net).0
          (record s { net = A.reset (A.release_and_close s.net).1 }))
    | inr e ↦ rw (e) refl
  ]

  -- A closed connection keeps its last message.
  abbrev Closed : Option Message → Bool → Socket A N → Type 0
  Closed m b t = (b ≡ true) × (t.message ≡ m)

  closing-Closed :
      (s : Socket A N)
      → Ends
          (Closed s.message)
          (λ _. ⊥)
          (shutdown A N >>= λ done. modify (released A N) >>= λ _. pure true)
          s
  unfolding shutdown
  closing-Closed s =
      bind-Ends {P = λ b t. t.message ≡ s.message}
        (bind-Ends (modify-Ends _ (shut-message s)) λ _ t h. pure-Ends true h)
        λ done t h.
          bind-Ends {P = λ _ t. t.message ≡ s.message} (modify-Ends _ (released-message t ∙ h))
            λ _ u k. pure-Ends true (refl, k)
    where
      shut-message :
          (s : Socket A N)
          → (if usable A N s then record s { net = A.shutdown_both s.net } else s).message
            ≡ s.message
      shut-message s = elim (Bool-cases (usable A N s)) [
        | inl e ↦ rw (e) refl
        | inr e ↦ rw (e) refl
      ]

  close_conn-Closed :
      (force : Bool) (s : Socket A N) → Ends (Closed s.message) (λ _. ⊥) (close_conn A N force) s
  unfolding close_conn
  close_conn-Closed force s =
      elim (Bool-cases
        (not (A.has_socket s.net) || (A.is_open s.net && s.keep_alive && not force))) [
          | inl e ↦ record { holds = rw (close_conn, e) (refl, refl) }
          | inr e ↦ record { holds = rw (close_conn, e) ((closing-Closed s).holds) }
        ]

  -- The cookie of the answer, if there was one.
  Settled : Text → Bool → Connection A N → Type 0
  Settled cookie true s = s.cookie ≡ cookie_after A N s.socket.message cookie
  Settled cookie false s = s.cookie ≡ cookie

  -- What `finish` needs for it.
  Settles : Text → Bool → Connection A N → Type 0
  Settles cookie true s =
      cookie_after A N s.socket.message s.cookie ≡ cookie_after A N s.socket.message cookie
  Settles cookie false s = s.cookie ≡ cookie

  store_cookie-message :
      (ret_val : Bool) (s : Connection A N)
      → (store_cookie A N ret_val s).socket.message ≡ s.socket.message
  store_cookie-message true s = refl
  store_cookie-message false s = refl

  kept_again-same :
      (m : Message) (s : Connection A N)
      → ((kept_again A N m s).socket.message ≡ s.socket.message)
        × ((kept_again A N m s).cookie ≡ s.cookie)
  kept_again-same m s = elim (Bool-cases (same_code m.code msg_end)) [
    | inl e ↦ rw (e) (refl, refl)
    | inr e ↦ rw (e) (refl, refl)
  ]

  Settled-done :
      (ret_val : Bool) (cookie : Text) (s v : Connection A N)
      → Settles cookie ret_val s
      → v.socket.message ≡ s.socket.message
      → v.cookie ≡ (store_cookie A N ret_val s).cookie
      → Settled cookie ret_val v
  unfolding Settled Settles
  Settled-done true cookie s v h same stored =
      stored ∙ h ∙ ap (λ m. cookie_after A N m cookie) (sym same)
  Settled-done false cookie s v h same stored = stored ∙ h

  finish-Settled :
      (m : Message) (ret_val : Bool) (cookie : Text) (s : Connection A N)
      → Settles cookie ret_val s
      → Ends (Settled cookie) (λ _. Unit {0}) (finish A N m ret_val) s
  unfolding finish
  finish-Settled m ret_val cookie s h =
      let stored = store_cookie A N ret_val s in
      let again = kept_again A N m stored in
      bind-Ends {P = λ _ t. t ≡ stored} (modify-Ends _ refl) λ _ t is.
        bind-Ends {P = λ _ t. t ≡ again} (modify-Ends _ (ap (kept_again A N m) is)) λ _ u same.
          bind-Ends
            {P = λ closed v.
              (closed ≡ true) × ((v.socket.message ≡ u.socket.message) × (v.cookie ≡ u.cookie))}
            (on-Ends _ _ (close_conn A N false) (
              (never (
                weaken-Ends (close_conn-Closed false u.socket)
                  (λ b t h. (h.0, (h.1, refl))))).holds))
            λ closed v ends. pure-Ends (closed && ret_val) (
              let one : (closed && ret_val) ≡ ret_val = ap (λ b. b && ret_val) ends.0 in
              let message =
                ends.1.0
                ∙ ap (λ t. t.socket.message) same
                ∙ (kept_again-same m stored).0
                ∙ store_cookie-message ret_val s in
              let cookie_ = ends.1.1 ∙ ap (λ t. t.cookie) same ∙ (kept_again-same m stored).1 in
              rw (one) (Settled-done ret_val cookie s v h message cookie_))

  cookie_after-again :
      (m : Option Message) (cookie : Text)
      → cookie_after A N m (cookie_after A N m cookie) ≡ cookie_after A N m cookie
  cookie_after-again none cookie = refl
  cookie_after-again (some m) cookie = elim (Bool-cases (same_text m.cookie cookie_keep_the_same)) [
    | inl e ↦ rw (e) refl
    | inr e ↦ rw (e) refl
  ]

  Settles-kept :
      (ret_val : Bool) (cookie : Text) (s : Connection A N)
      → s.cookie ≡ cookie
      → Settles cookie ret_val s
  unfolding Settles
  Settles-kept true cookie s h = ap (cookie_after A N s.socket.message) h
  Settles-kept false cookie s h = h

  Settles-Settled :
      (ret_val : Bool) (cookie : Text) (s : Connection A N)
      → Settled cookie ret_val s
      → Settles cookie ret_val s
  unfolding Settles Settled
  Settles-Settled true cookie s h =
      ap (cookie_after A N s.socket.message) h ∙ cookie_after-again s.socket.message cookie
  Settles-Settled false cookie s h = h

  finished :
      (m : Message) (ret_val : Bool) (cookie : Text) (s : Connection A N)
      → Settles cookie ret_val s
      → IfOk (Settled cookie) (ends (finish A N m ret_val) s)
  finished m ret_val cookie s h = ends-IfOk (finish-Settled m ret_val cookie s h)

  answered-IfOk :
      (again : Dialog (Connection A N) Bool) (m : Message) (done : Exchanged A N) (cookie : Text)
      (s : Connection A N)
      → s.cookie ≡ cookie
      → ((t : Connection A N) → t.cookie ≡ cookie → IfOk (Settled cookie) (again t))
      → IfOk (Settled cookie) (answered A N again m done s)
  unfolding answered Settled
  answered-IfOk again m gives_up cookie s h next = h
  answered-IfOk again m (goes_on ret_val) cookie s h next =
      finished m ret_val cookie s (Settles-kept ret_val cookie s h)
  answered-IfOk again m retries cookie s h next =
      and_then-IfOk (Settled cookie) (Settled cookie) again (λ ret_val. ends (finish A N m ret_val))
        s (next s h) λ ret_val t k. finished m ret_val cookie t (Settles-Settled ret_val cookie t k)

  send_and_receive-IfOk :
      (fuel : ℕ) (m : Message) (expected : MessageType) (cookie : Text) (s : Connection A N)
      → s.cookie ≡ cookie
      → IfOk (Settled cookie) (send_and_receive A N fuel m expected s)
  unfolding send_and_receive
  send_and_receive-IfOk zero m expected cookie s h = tt
  send_and_receive-IfOk (suc fuel) m expected cookie s h =
      and_then-IfOk (λ _ t. t.cookie ≡ cookie) (Settled cookie) (ends (exchange A N m expected)) _ s
        (ends-IfOk (exchange-Keeps A N m expected cookie s h))
        λ done t k.
          answered-IfOk (send_and_receive A N fuel m expected) m done cookie t k
            (λ u e. send_and_receive-IfOk fuel m expected cookie u e)

  Settled-cookie :
      (b : Bool) (cookie : Text) (t : Connection A N)
      → Settled cookie b t
      → t.cookie ≡ (if b then cookie_after A N t.socket.message cookie else cookie)
  unfolding Settled
  Settled-cookie true cookie t h = h
  Settled-cookie false cookie t h = h

  -- When `send_and_receive` returns true, however often it was asked to retry, `cookie_` is the
  -- cookie of the message that was received, or the one from before if that message says so; when
  -- it returns false, it is the one from before.
  pub send_and_receive-cookie :
      (fuel : ℕ) (m : Message) (expected : MessageType) (s t : Connection A N) (b : Bool)
      → send_and_receive A N fuel m expected s ≡ some (ok b, t)
      → t.cookie ≡ (if b then cookie_after A N t.socket.message s.cookie else s.cookie)
  send_and_receive-cookie fuel m expected s t b e =
      let held = send_and_receive-IfOk fuel m expected s.cookie s refl in
      Settled-cookie b s.cookie t (rw e at held)
