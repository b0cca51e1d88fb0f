-- ===== src/Comm/ServerApi/Refusals.antt =====
-- A connection without an accepted login: what comm/Server_API.cpp answers.
use pds_progetto.Comm.ServerApi.{
  timed_out, Handlers, is_login, turns, Connection, answer, do_login, respond, serve_for, serve,
  Inbound, run, refused, received, opened, is_end, session_at, failed, with_cookie,
}
use pds_progetto.Comm.Message.{MessageType, Message, msg_login, error}
use pds_progetto.Server.Session.{Session, is_logged_in, get_cookie}
use pds_progetto.Base.{
  ◌≡◌, true, false, refl, Bool, All, List, Bool-cases, ◌∷◌, inl, ◌||◌, inr, ◌&&◌, [],
}
use pds_progetto.Comm.ServerApi.Guard.{
  Returns, IsRefusal, NobodyIn, Returns-bind, Retrieved, update_session-NobodyIn,
  retrieve_session-Retrieved, pause_session-NobodyIn, remove_session-NobodyIn, All-append_one,
  session_at-out,
}
use pds_progetto.Comm.CommError.{CommError}
use pds_progetto.Base.Int.{ℤ}
use pds_progetto.Server.SessionManager.{
  SessionManager, retrieve_session, pause_session, update_session, get_empty_session,
}

-- Nobody is logged in, every answer was a refusal, and the world is as the invariant says.
abbrev pub IsOutside : {W : Type 0} → (W → Type 0) → Connection W → Type 0
IsOutside I c = NobodyIn c.manager × All IsRefusal c.sent × I c.world

-- A login request has wrong credentials.
abbrev pub WrongIn : (Message → Type 0) → Inbound → Type 0
WrongIn Wrong (received req) = is_login req.code ≡ true → Wrong req
WrongIn Wrong _ = Unit

-- The other handlers in place of those of `H`; the login and the handling of errors stay.
abbrev pub with_handlers : {W : Type 0} → Handlers W → Handlers W → Handlers W
with_handlers other H = record other { login = H.login; handle_error = H.handle_error }

is_login-true : (code : MessageType) → is_login code ≡ true → code ≡ msg_login
is_login-true msg_login h = refl
is_login-true _ h = cc

module _ {W : Type 0} (H : Handlers W) (I : W → Type 0) (Wrong : Message → Type 0)
    (no_login : (s : Session) (req : Message) (w : W)
      → Wrong req
      → I w
      → Returns (λ r. (r.0 ≡ false) × I r.2) (H.login s req.username req.password w))
    (quiet : (s : Session) (e : CommError) (w : W) → I w → I (H.handle_error s e w)) where
  answer-IsOutside :
      (req : Message) (n : ℤ) (m : SessionManager) (c : Connection W) (r : Message × Session × W)
      → NobodyIn m
      → All IsRefusal c.sent
      → IsRefusal r.0
      → r.1.login_status ≡ false
      → I r.2
      → IsOutside I (answer H req n m c r)
  unfolding answer
  answer-IsOutside req n m c (res, s, w) nobody sent refusal out i =
      let stored = update_session-NobodyIn n (λ _. s) m nobody (λ _ _. out) in
      (
        elim (Bool-cases (c.end_session || is_end req.code)) [
          | inl ending ↦
              rw (ending)
                (remove_session-NobodyIn s.session_id (update_session n (λ _. s) m) stored)
          | inr going ↦ rw (going) stored
        ],
        All-append_one IsRefusal c.sent (with_cookie (get_cookie s) res) sent refusal,
        i,
      )

  abbrev Rejected : Message × Session × W → Type 0
  Rejected (res, s, w) = IsRefusal res × (s.login_status ≡ false) × I w

  do_login-Rejected :
      (s : Session) (req : Message) (w : W)
      → Wrong req
      → I w
      → Returns Rejected (do_login H s req w)
  unfolding do_login error
  do_login-Rejected s req w wrong i =
      Returns-bind (λ r. (r.0 ≡ false) × I r.2) Rejected (H.login s req.username req.password w) _
        (no_login s req w wrong i) λ r h. rw (h.0) (refl, refl, h.1)

  respond-Rejected :
      (code : MessageType) (s : Session) (req : Message) (w : W)
      → is_login code ≡ true
      → Wrong req
      → I w
      → Returns Rejected (respond H code s req w)
  unfolding respond
  respond-Rejected msg_login s req w h wrong i = do_login-Rejected s req w wrong i
  respond-Rejected _ s req w h wrong i = cc

  serve_for-IsOutside :
      (req : Message) (n : ℤ) (m : SessionManager) (s : Session) (c : Connection W)
      → NobodyIn m
      → All IsRefusal c.sent
      → I c.world
      → (is_login req.code ≡ true → Wrong req)
      → s.login_status ≡ false
      → Returns (λ r. IsOutside I r.1) (serve_for H req n m s c)
  unfolding serve_for refused is_logged_in error
  serve_for-IsOutside req n m s c nobody sent i wrong out = elim (Bool-cases (is_login req.code)) [
    | inl login ↦ rw (login) (
        Returns-bind Rejected (λ r. IsOutside I r.1) (respond H req.code s req c.world) _
          (respond-Rejected req.code s req c.world login (wrong login) i)
          λ r h. answer-IsOutside req n m c r nobody sent h.0 h.1 h.2)
    | inr other ↦ rw (other, out) (nobody, All-append_one IsRefusal c.sent _ sent refl, i)
  ]

  pub serve-IsOutside :
      (req : Message) (c : Connection W)
      → IsOutside I c
      → (is_login req.code ≡ true → Wrong req)
      → Returns (λ r. IsOutside I r.1) (serve H req c)
  unfolding serve
  serve-IsOutside req c (nobody, sent, i) wrong =
      Returns-bind Retrieved (λ r. IsOutside I r.1) (retrieve_session req.cookie c.manager) _
        (retrieve_session-Retrieved req.cookie c.manager nobody)
        λ r h.
          serve_for-IsOutside req r.0 r.1 (session_at r.0 r.1) c h.0 sent i wrong
            (session_at-out r.0 r.1 h)

  turns-IsOutside :
      (down : Bool) (inbound : List Inbound) (c : Connection W)
      → IsOutside I c
      → All (WrongIn Wrong) inbound
      → Returns (IsOutside I) (turns H down inbound c)
  unfolding turns error
  turns-IsOutside down [] c o wrong = o
  turns-IsOutside down (timed_out cookie ∷ _) c o wrong = o
  turns-IsOutside down (failed e ∷ _) c (nobody, sent, i) wrong =
      (nobody, All-append_one IsRefusal c.sent _ sent refl, quiet get_empty_session e c.world i)
  turns-IsOutside down (received req ∷ rest) c o wrong =
      Returns-bind (λ r. IsOutside I r.1) (IsOutside I) (serve H req c) _
        (serve-IsOutside req c o wrong.0)
        λ r h. elim (Bool-cases (r.0 && req.keep_alive)) [
          | inl again ↦ rw (again) (turns-IsOutside down rest r.1 h wrong.1)
          | inr over ↦ rw (over) h
        ]

  -- A run over sessions that are not logged in, whose login accepts nobody, answers every request
  -- by a refusal and leaves no session logged in, if it returns.
  pub run-IsOutside :
      (down closed : Bool) (inbound : List Inbound) (m : SessionManager) (w : W)
      → NobodyIn m
      → I w
      → All (WrongIn Wrong) inbound
      → Returns (λ r. IsOutside I r.1) (run H down closed inbound m w)
  unfolding run
  run-IsOutside down closed inbound m w nobody i wrong =
      Returns-bind (IsOutside I) (λ r. IsOutside I r.1) (turns H down inbound (opened m w)) _
        (turns-IsOutside down inbound _ (nobody, tt, i) wrong)
        λ c h.
          Returns-bind NobodyIn (λ r. IsOutside I r.1) (pause_session c.last_cookie c.manager) _
            (pause_session-NobodyIn c.last_cookie c.manager h.0) λ m' h'. (h', h.1, h.2)
