-- ===== src/Comm/ServerApi.antt =====
-- comm/Server_API.h and comm/Server_API.cpp: the requests of one connection. The functions that
-- `set_login` and its like install are the parameter `H`; what they change besides the session is a
-- world `W`. What the socket yields is the list of outcomes of `receive`.
pub mod Guard
pub mod Refusals
pub mod Outside
pub mod Login
use pds_progetto.Base.{
  ℕ, Text, Bool, true, false, Option, none, some, List, [], ◌∷◌, ◌++◌, codes, not, ◌&&◌, ◌||◌,
  if◌then◌else◌, int_eq,
}
use pds_progetto.Base.Int.{ℤ}
use pds_progetto.Base.Dict.{Dict, lookup}
use pds_progetto.Cpp.Result.{Result, ok, throws, ◌>>=◌}
use pds_progetto.Comm.CommError.{
  CommError, comm_error, ce_generic, ce_failure, ce_wrong_value, ce_not_allowed, ce_unexpected_type,
}
use pds_progetto.Comm.Message.{
  Message, MessageType, msg_okay, msg_login, msg_probe, msg_get, msg_push, msg_restore, msg_end,
  ElementStatus, Bytes, okay, error, probe_content, get_content, restore_content, retry_later,
  cookie_keep_the_same, modified_file,
}
use pds_progetto.Server.Session.{Session, new_session, get_cookie, is_logged_in}
use pds_progetto.Server.SessionManager.{
  SessionManager, get_empty_session, retrieve_session, pause_session, remove_session,
  update_session,
}

-- The functions of a `Server_API`; those that take the session by a pointer and write to it return it.
pub record Handlers (W : Type 0) : Type 0 where
  pub login : Session → Text → Text → W → Result (Bool × Session × W)
  pub probe : Session → List Text → W → Result (Dict Text Text × W)
  pub get : Session → Text → W → Result (Bytes × ElementStatus × W)
  pub push : Session → Text → Bytes → Text → ElementStatus → W → Result (Bool × Session × W)
  pub restore : Session → W → Result (List Text × W)
  pub end : Session → W → Result (Bool × W)
  pub handle_error : Session → CommError → W → W

-- The initializers of the functions.
abbrev pub default_handlers : {W : Type 0} → Handlers W
default_handlers = record {
  login = λ s _ _ w. ok (true, s, w);
  probe = λ _ _ w. ok ([], w);
  get = λ _ _ w. ok ([], modified_file, w);
  push = λ s _ _ _ _ w. ok (true, s, w);
  restore = λ _ w. ok ([], w);
  end = λ _ w. ok (true, w);
  handle_error = λ _ _ w. w;
}

-- What becomes of one `receive`. After a timeout the socket keeps a message with some cookie; after
-- a failure it keeps one without a cookie.
pub data Inbound : Type 0 where
  received : Message → Inbound
  failed : CommError → Inbound
  timed_out : Text → Inbound

pub record Connection (W : Type 0) : Type 0 where
  pub manager : SessionManager
  pub world : W
  -- The messages that were handed to `send`, the first one first.
  pub sent : List Message
  -- The cookie of the message that the socket keeps.
  pub last_cookie : Text
  -- The local variables of `run`; `end_session` stays set once a request has set it.
  pub end_session : Bool
  pub status : Bool

abbrev pub is_login : MessageType → Bool
is_login msg_login = true
is_login _ = false

abbrev pub is_end : MessageType → Bool
is_end msg_end = true
is_end _ = false

-- The object that `retrieve_session` has just stored under this number.
unfoldable pub session_at : ℤ → SessionManager → Session
unfolding lookup new_session
session_at n m = elim (lookup n m.sessions) [ none ↦ new_session n | some s ↦ s ]

abbrev pub with_cookie : Text → Message → Message
with_cookie cookie m = record m { cookie = cookie }

-- The connection when `run` begins.
abbrev pub opened : {W : Type 0} → SessionManager → W → Connection W
opened m w = record {
  manager = m;
  world = w;
  sent = [];
  last_cookie = [];
  end_session = false;
  status = true;
}

module _ {W : Type 0} (H : Handlers W) where
  unfoldable pub do_login : Session → Message → W → Result (Message × Session × W)
  unfolding okay error
  do_login s req w = do
    (status, s', w') ← H.login s req.username req.password w
    ok (
      if status
          then okay
          else error
              (comm_error ce_wrong_value "Server_API::do_login" "Invalid username or password"),
      record s' { login_status = status },
      w',
    )

  unfoldable pub do_probe : Session → Message → W → Result (Message × Session × W)
  unfolding probe_content
  do_probe s req w = do (hashes, w') ← H.probe s req.paths w; ok (probe_content hashes, s, w')

  unfoldable pub do_get : Session → Message → W → Result (Message × Session × W)
  unfolding get_content
  do_get s req w = do
    (file, status, w') ← H.get s req.path w
    ok (get_content file req.path status, s, w')

  unfoldable pub do_push : Session → Message → W → Result (Message × Session × W)
  unfolding okay error
  do_push s req w = do
    (status, s', w') ← H.push s req.path req.file req.hash req.element_status w
    ok (
      if status
          then okay
          else error (comm_error ce_failure "Server_API::do_push" "Unable to push the file"),
      s',
      w',
    )

  unfoldable pub do_restore : Session → Message → W → Result (Message × Session × W)
  unfolding restore_content
  do_restore s req w = do (paths, w') ← H.restore s w; ok (restore_content paths, s, w')

  unfoldable pub do_end : Session → Message → W → Result (Message × Session × W)
  unfolding okay error
  do_end s req w = do
    (status, w') ← H.end s w
    ok (
      if status
          then okay
          else error (
              comm_error ce_failure "Server_API::do_end"
                "The server doesn't approved your request"),
      s,
      w',
    )

  -- The `switch` of `run`.
  unfoldable pub respond : MessageType → Session → Message → W → Result (Message × Session × W)
  unfolding do_login do_probe do_get do_push do_restore do_end okay error
  respond msg_okay s req w = ok (okay, s, w)
  respond msg_login s req w = do_login s req w
  respond msg_probe s req w = do_probe s req w
  respond msg_get s req w = do_get s req w
  respond msg_push s req w = do_push s req w
  respond msg_restore s req w = do_restore s req w
  respond msg_end s req w = do_end s req w
  respond _ s req w =
      ok (error (comm_error ce_unexpected_type "Server_API::run" "Invalid message code"), s, w)

  -- The end of a turn of the loop: the answer is sent, and an ended session is removed.
  unfoldable pub answer :
      Message → ℤ → SessionManager → Connection W → Message × Session × W → Connection W
  unfolding remove_session update_session get_cookie
  answer req n m c (res, s, w) =
      let m' = update_session n (λ _. s) m in
      let ending = c.end_session || is_end req.code in
      record c {
        manager = if ending then (remove_session s.session_id m').1 else m';
        world = w;
        sent = c.sent ++ with_cookie (get_cookie s) res ∷ [];
        last_cookie = req.cookie;
        end_session = ending;
      }

  unfoldable pub refused : Message → SessionManager → Connection W → Connection W
  unfolding error
  refused req m c = record c {
    manager = m;
    sent =
        c.sent
        ++ error (
            comm_error ce_not_allowed "Server_API::run" "Login must be perfomed before this action")
          ∷ [];
    last_cookie = req.cookie;
  }

  -- A request for the session `s`, stored under `n`; the flag tells that the loop was not left by
  -- `break`.
  unfoldable pub serve_for :
      Message → ℤ → SessionManager → Session → Connection W → Result (Bool × Connection W)
  unfolding respond answer refused is_logged_in
  serve_for req n m s c =
      let served = (do r ← respond req.code s req c.world; ok (true, answer req n m c r)) in
      if not (is_login req.code) && not (is_logged_in s)
      then ok (false, refused req m c)
      else served

  unfoldable pub serve : Message → Connection W → Result (Bool × Connection W)
  unfolding retrieve_session session_at serve_for
  serve req c = do
    (n, m) ← retrieve_session req.cookie c.manager
    serve_for req n m (session_at n m) c

  -- The loop of `run`; a connection on which nothing more happens times out. `down` is what
  -- `shutdown` returns.
  unfoldable pub turns : Bool → List Inbound → Connection W → Result (Connection W)
  unfolding serve error get_empty_session
  turns down [] c = ok (record c { status = down; last_cookie = [] })
  turns down (timed_out cookie ∷ _) c = ok (record c { status = down; last_cookie = cookie })
  turns down (failed e ∷ _) c = ok (record c {
    world = H.handle_error get_empty_session e c.world;
    sent =
        c.sent ++ error (comm_error ce_generic "Server_API::run" "Transmission level error") ∷ [];
    last_cookie = [];
  })
  turns down (received req ∷ rest) c = do
    (more, c') ← serve req c
    elim (more && req.keep_alive) [ false ↦ ok c' | true ↦ turns down rest c' ]

  -- `run`: `closed` is what `close_conn` returns.
  unfoldable pub run :
      Bool → Bool → List Inbound → SessionManager → W → Result (Bool × Connection W)
  unfolding turns pause_session
  run down closed inbound m w = do
    c ← turns down inbound (opened m w)
    m' ← pause_session c.last_cookie c.manager
    ok (closed && c.status, record c { manager = m' })

-- `discard`: the message that is sent, and the result.
unfoldable pub discard : Bool → Message × Bool
unfolding retry_later
discard closed = (with_cookie cookie_keep_the_same retry_later, closed)
