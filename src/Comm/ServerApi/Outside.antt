-- ===== src/Comm/ServerApi/Outside.antt =====
-- Without an accepted login, no handler of comm/Server_API.cpp but the login's is called.
use pds_progetto.Comm.ServerApi.{
  timed_out, Handlers, turns, respond, serve_for, serve, run, do_login, refused, Connection, answer,
  Inbound, is_login, opened, failed, received, session_at,
}
use pds_progetto.Comm.Message.{Message, MessageType, msg_login}
use pds_progetto.Server.Session.{Session, is_logged_in}
use pds_progetto.Comm.ServerApi.Guard.{
  Returns, NobodyIn, Returns-bind_eq, Retrieved, retrieve_session-Retrieved, session_at-out,
}
use pds_progetto.Base.{◌≡◌, false, Bool, List, All, true, Bool-cases, ◌∷◌, inl, refl, inr, ◌&&◌, []}
use pds_progetto.Comm.CommError.{CommError}
use pds_progetto.Comm.ServerApi.Refusals.{
  IsOutside, WrongIn, with_handlers, run-IsOutside, serve-IsOutside,
}
use pds_progetto.Server.SessionManager.{SessionManager, retrieve_session}
use pds_progetto.Base.Int.{ℤ}

module _ {W : Type 0} (H other : Handlers W) (I : W → Type 0) (Wrong : Message → Type 0)
    (no_login : (s : Session) (req : Message) (w : W)
      → Wrong req
      → I w
      → Returns (λ r. (r.0 ≡ false) × I r.2) (H.login s req.username req.password w))
    (quiet : (s : Session) (e : CommError) (w : W) → I w → I (H.handle_error s e w)) where
  respond-with_handlers :
      (code : MessageType) (s : Session) (req : Message) (w : W)
      → is_login code ≡ true
      → respond (with_handlers other H) code s req w ≡ respond H code s req w
  unfolding respond do_login
  respond-with_handlers msg_login s req w h = refl
  respond-with_handlers _ s req w h = cc

  serve_for-with_handlers :
      (req : Message) (n : ℤ) (m : SessionManager) (s : Session) (c : Connection W)
      → s.login_status ≡ false
      → serve_for (with_handlers other H) req n m s c ≡ serve_for H req n m s c
  unfolding serve_for refused answer is_logged_in
  serve_for-with_handlers req n m s c out = elim (Bool-cases (is_login req.code)) [
    | inl login ↦ rw (login, respond-with_handlers req.code s req c.world login) refl
    | inr other ↦ rw (other, out) refl
  ]

  serve-with_handlers :
      (req : Message) (c : Connection W)
      → IsOutside I c
      → (is_login req.code ≡ true → Wrong req)
      → serve (with_handlers other H) req c ≡ serve H req c
  unfolding serve
  serve-with_handlers req c (nobody, sent, i) wrong =
      Returns-bind_eq Retrieved (retrieve_session req.cookie c.manager) _ _
        (retrieve_session-Retrieved req.cookie c.manager nobody)
        λ r h. serve_for-with_handlers req r.0 r.1 (session_at r.0 r.1) c (session_at-out r.0 r.1 h)

  turns-with_handlers :
      (down : Bool) (inbound : List Inbound) (c : Connection W)
      → IsOutside I c
      → All (WrongIn Wrong) inbound
      → turns (with_handlers other H) down inbound c ≡ turns H down inbound c
  unfolding turns
  turns-with_handlers down [] c o wrong = refl
  turns-with_handlers down (timed_out cookie ∷ _) c o wrong = refl
  turns-with_handlers down (failed e ∷ _) c o wrong = refl
  turns-with_handlers down (received req ∷ rest) c o wrong =
      rw (serve-with_handlers req c o wrong.0) (
        Returns-bind_eq (λ r. IsOutside I r.1) (serve H req c) _ _
          (serve-IsOutside H I Wrong no_login quiet req c o wrong.0)
          λ r h. elim (Bool-cases (r.0 && req.keep_alive)) [
            | inl again ↦ rw (again) (turns-with_handlers down rest r.1 h wrong.1)
            | inr over ↦ rw (over) refl
          ])

  -- A run over sessions that are not logged in, all of whose login requests have credentials that
  -- the login refuses in every world of an invariant `I`, does not depend on the handlers of probe,
  -- get, push, restore and end: replacing them all changes nothing of its result. If it returns,
  -- every answer was a refusal, no stored session is logged in and the invariant holds.
  pub run-with_handlers :
      (down closed : Bool) (inbound : List Inbound) (m : SessionManager) (w : W)
      → NobodyIn m
      → I w
      → All (WrongIn Wrong) inbound
      → (run (with_handlers other H) down closed inbound m w ≡ run H down closed inbound m w)
        × Returns (λ r. IsOutside I r.1) (run H down closed inbound m w)
  unfolding run
  run-with_handlers down closed inbound m w nobody i wrong = (
    rw (turns-with_handlers down inbound (opened m w) (nobody, tt, i) wrong) refl,
    run-IsOutside H I Wrong no_login quiet down closed inbound m w nobody i wrong,
  )
