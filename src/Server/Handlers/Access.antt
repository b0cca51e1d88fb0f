-- ===== src/Server/Handlers/Access.antt =====
-- A client without a user's password: what its connection can do to the server.
use pds_progetto.Cpp.Files.{Files}
use pds_progetto.Server.Sqlite.{Sqlite}
use pds_progetto.Server.Database.Semantics.{IsSqlite}
use pds_progetto.Comm.Utils.{Sha256, hash}
use pds_progetto.Base.{ℕ, Text, ◌≡◌, Bool, List, false, true, refl, ◌≢◌, ◌∙◌, All}
use pds_progetto.Server.Handlers.{World, admit, login, handle_error, server_init}
use pds_progetto.Comm.ServerApi.{Handlers, Inbound, run}
use pds_progetto.Comm.Message.{Message}
use pds_progetto.Server.Session.{Session}
use pds_progetto.Server.Table.{count_users}
use pds_progetto.Server.Database.Parts.{Unchanged, Applies}
use pds_progetto.Comm.CommError.{CommError}
use pds_progetto.Server.Database.{c_str, login_query}
use pds_progetto.Comm.ServerApi.Guard.{Returns, NobodyIn, IsRefusal}
use pds_progetto.Server.Database.Login.{login_query-Applies}
use pds_progetto.Server.SessionManager.{SessionManager}
use pds_progetto.Comm.ServerApi.Refusals.{WrongIn, with_handlers}
use pds_progetto.Comm.ServerApi.Outside.{run-with_handlers}

module _ (F : Files) (S : Sqlite) (L : IsSqlite S) (H : Sha256) (fuel : ℕ) (root : Text)
    (w0 : World F S H fuel root) where
  abbrev ServerWorld : Type 0
  ServerWorld = World F S H fuel root

  -- The credentials of the request do not stand once in USERS.
  abbrev pub WrongCredentials : Message → Type 0
  WrongCredentials req =
      count_users (c_str req.username) (c_str (hash H req.password)) (L.users w0.db) ≢ 1

  -- The files and the tables are those of `w0`, and no statement is left open.
  abbrev pub Untouched : World F S H fuel root → Type 0
  Untouched w = (w.files ≡ w0.files) × Unchanged S L w0.db w.db

  admit-refused :
      (accepted : Bool) (session : Session) (username : Text) (w : ServerWorld)
      → accepted ≡ false
      → Untouched w
      → Returns
          (λ r. (r.0 ≡ false) × Untouched r.2)
          (admit F S H fuel root accepted session username w)
  unfolding admit
  admit-refused false session username w e h = (refl, h)
  admit-refused true session username w e h = cc

  Applies-false :
      (c : S.Conn) (fact : Type 0) (r : Bool × S.Conn)
      → Applies S L c fact (L.sessions c) r
      → (fact → ⊥)
      → (r.0 ≡ false) × Unchanged S L c r.1
  Applies-false c fact (true, c') a no_fact = absurd (no_fact (a.3 refl))
  Applies-false c fact (false, c') a no_fact = (refl, (a.0, a.1, a.2))

  login-refused :
      (s : Session) (req : Message) (w : ServerWorld)
      → WrongCredentials req
      → Untouched w
      → Returns
          (λ r. (r.0 ≡ false) × Untouched r.2)
          (login F S H fuel root s req.username req.password w)
  unfolding login
  login-refused s req w wrong (files, (live, users, sessions)) =
      let h =
        Applies-false w.db _ _ (login_query-Applies S L (hash H) req.username req.password w.db)
          (λ one. wrong (rw (users) at one)) in
      admit-refused _ s req.username
        (record w { db = (login_query S (hash H) req.username req.password w.db).1 }) h.0
        (files, (h.1.0 ∙ live, h.1.1 ∙ users, h.1.2 ∙ sessions))

  quiet :
      (s : Session) (e : CommError) (w : ServerWorld)
      → Untouched w
      → Untouched (handle_error F S H fuel root s e w)
  unfolding handle_error
  quiet s e w h = h

  -- A connection to a server on which nobody is logged in, all of whose login requests have
  -- credentials that do not stand once in USERS: the run is the same whatever the handlers of probe,
  -- get, push, restore and end are. If it returns, every answer was a refusal, nobody is logged in,
  -- and the files, both tables and the number of open statements are those of before.
  pub run-WrongCredentials :
      (other : Handlers (World F S H fuel root)) (down closed : Bool) (inbound : List Inbound)
      (m : SessionManager)
      → NobodyIn m
      → All (WrongIn WrongCredentials) inbound
      → (run (with_handlers other (server_init F S H fuel root)) down closed inbound m w0
          ≡ run (server_init F S H fuel root) down closed inbound m w0)
        × Returns
            (λ r. NobodyIn r.1.manager × All IsRefusal r.1.sent × Untouched r.1.world)
            (run (server_init F S H fuel root) down closed inbound m w0)
  run-WrongCredentials other down closed inbound m nobody wrong =
      run-with_handlers (server_init F S H fuel root) other Untouched WrongCredentials login-refused
        quiet down closed inbound m w0 nobody (refl, (refl, refl, refl)) wrong
