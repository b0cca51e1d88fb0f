-- ===== src/Examples/Requests.antt =====
-- The requests on the server at concrete inputs.
use pds_progetto.Examples.Disk.{disk, keep_all}
use pds_progetto.Base.Equality.{same_text}
use pds_progetto.Comm.Message
use pds_progetto.Server.Push
use pds_progetto.Cpp.Result.{◌>>=◌}
use pds_progetto.Comm.Utils.{hash, digest_hex}
use pds_progetto.Server.Table.{Row, count_users}
use pds_progetto.Server.Database.Memory.{MemoryConn, memory, memory-IsSqlite}
use pds_progetto.Server.Session.{Session, get_cookie}
use pds_progetto.Server.Push.{ServerState}
use pds_progetto.Base.{
  Bool, ◌≤◌, List, codes, ◌∷◌, [], true, ◌≡◌, All, false, ◌<◌, arith, ◌↔◌, some, ℕ, refl, ap, sym,
  ◌∙◌, int_eq,
}
use pds_progetto.Server.Handlers.{World, accept, max_threads, discarded, server_init}
use pds_progetto.Base.Dict.{lookup, assign}
use pds_progetto.Comm.ServerApi.{
  run, Inbound, received, default_handlers, Connection, opened, serve, with_cookie, respond, answer,
  session_at,
}
use pds_progetto.Base.Int.{pos, ℤ, ==ℤ_iff}
use pds_progetto.Server.Database.{c_str}
use pds_progetto.Server.Handlers.Queries.{
  Threads, then_step, started, accepted, Threads-le-max_threads,
}
use pds_progetto.Server.SessionManager.{new_manager, SessionManager, retrieve_session, enter}
use pds_progetto.Comm.ServerApi.Refusals.{with_handlers, WrongIn}
use pds_progetto.Comm.ServerApi.Guard.{NobodyIn, Returns, IsRefusal}
use pds_progetto.Server.Handlers.Access.{WrongCredentials, Untouched, run-WrongCredentials}
use pds_progetto.Comm.Message.{created_file, Message, okay, is_okay, new_message, msg_probe_content}
use pds_progetto.Cpp.Result.{ok}
use pds_progetto.Server.Database.Parts.{Applies}
use pds_progetto.Server.Push.Effects.{Needed, changed_rows, push-Applies}
use pds_progetto.Server.SessionManager.Numbering.{IsNumbered}
use pds_progetto.Cpp.Numbers.{stoi}
use pds_progetto.Comm.ServerApi.Login.{logged, serve-login}

abbrev ann_row : Row
ann_row = record { path = codes "ann/a.txt"; hash = codes "ab"; user = codes "ann"; dir = pos 0 }

abbrev server_db : MemoryConn
server_db = record {
  sessions = ann_row ∷ [];
  users = record { username = codes "ann"; password = codes "pw" } ∷ [];
  live = 0;
}

abbrev ann : Session
ann = record {
  session_id = pos 1;
  user = codes "ann";
  login_status = true;
  thread_count = pos 0;
  active_thread = false;
}

abbrev before_push : ServerState disk memory
before_push = record { session = ann; files = []; db = server_db }

push-Applies_example :
    (done : Bool) × (s' : ServerState disk memory) × (Push.push disk memory
        (codes "/srv")
        (codes "b.txt")
        (codes "text")
        (codes "cd")
        created_file
        before_push
      ≡ (ok done, s'))
    × (s'.session ≡ record ann { active_thread = false })
    × Applies memory memory-IsSqlite server_db
        (Needed disk memory memory-IsSqlite created_file (codes "ann/b.txt") server_db.sessions)
        (changed_rows disk memory memory-IsSqlite created_file
          (codes "ann/b.txt")
          (codes "cd")
          (codes "ann")
          server_db.sessions)
        (done, s'.db)
push-Applies_example =
    push-Applies disk memory memory-IsSqlite (codes "/srv") (codes "b.txt") (codes "text")
      (codes "cd") created_file before_push

abbrev stored_world : World disk memory keep_all 2 (codes "/srv")
stored_world = record { files = []; db = server_db }

one_thread : Threads 1
unfolding accept
one_thread = then_step started (accepted 0)

Threads-le-max_threads_example :
    (1 ≤ max_threads) × (((accept 1).0 ≡ discarded) ↔ (1 ≡ max_threads))
Threads-le-max_threads_example = Threads-le-max_threads 1 one_thread

-- A request without a login, and a login with a wrong password.
abbrev unknown_client : List Inbound
unknown_client =
    received (Message.get (codes "a.txt"))
    ∷ received (Message.login (codes "ann") (codes "wrong"))
    ∷ []

wrong_password :
    All
      (WrongIn
        (WrongCredentials disk memory memory-IsSqlite keep_all 2 (codes "/srv") stored_world))
      unknown_client
unfolding count_users same_text c_str Message.login Message.get hash digest_hex
wrong_password = (λ no. cc, (λ yes one. ground arith, tt))

nobody : NobodyIn new_manager
unfolding lookup new_manager
nobody j s found = cc

run-WrongCredentials_example :
    (run
        (with_handlers default_handlers (server_init disk memory keep_all 2 (codes "/srv")))
        false
        false
        unknown_client
        new_manager
        stored_world
      ≡ run
          (server_init disk memory keep_all 2 (codes "/srv"))
          false
          false
          unknown_client
          new_manager
          stored_world)
    × Returns
        (λ r.
          NobodyIn r.1.manager
          × All IsRefusal r.1.sent
          × Untouched disk memory memory-IsSqlite keep_all 2 (codes "/srv") stored_world r.1.world)
        (run
          (server_init disk memory keep_all 2 (codes "/srv"))
          false
          false
          unknown_client
          new_manager
          stored_world)
run-WrongCredentials_example =
    run-WrongCredentials disk memory memory-IsSqlite keep_all 2 (codes "/srv") stored_world
      default_handlers false false unknown_client new_manager nobody wrong_password

-- A client with the cookie of a session logs in.
abbrev waiting : Session
waiting = record {
  session_id = pos 1;
  user = [];
  login_status = false;
  thread_count = pos 0;
  active_thread = false;
}

abbrev entered : Session
entered = record waiting { thread_count = pos 1 }

abbrev waiting_manager : SessionManager
waiting_manager = record { session_counter = pos 2; sessions = (pos 1, waiting) ∷ [] }

abbrev entered_manager : SessionManager
entered_manager = record { session_counter = pos 2; sessions = (pos 1, entered) ∷ [] }

entered_entry :
    (j : ℤ) (s : Session)
    → lookup j entered_manager.sessions ≡ some s
    → s.session_id ≡ j × (k : ℕ) × j ≡ pos k × k < 2
unfolding lookup
entered_entry j s e =
    let both : (entered ≡ s) × (pos 1 ≡ j) = ground (arith, ==ℤ_iff (pos 1) j) in
    (ap (λ x. x.session_id) (sym both.0) ∙ both.1, 1, sym both.1, omega arith)

abbrev entered-IsNumbered : IsNumbered entered_manager
entered-IsNumbered = record { next = 2; counter = refl; below = entered_entry }

abbrev opened_connection : Connection ℕ
opened_connection = opened waiting_manager 5

abbrev login_request : Message
login_request = record (Message.login (codes "ann") (codes "pw")) { cookie = codes "1" }

login_cookie : retrieve_session login_request.cookie waiting_manager ≡ ok (pos 1, entered_manager)
unfolding retrieve_session stoi lookup assign
login_cookie = refl

serve-login_example :
    (c' : Connection ℕ) × serve default_handlers login_request opened_connection ≡ ok (true, c')
    × c'.world ≡ 5
    × c'.sent ≡ with_cookie (get_cookie (logged entered)) okay ∷ []
    × ((next : Message)
        → next.cookie ≡ get_cookie (logged entered)
        → (m' : SessionManager) × serve default_handlers next c' ≡ (
            respond default_handlers next.code (enter (logged entered)) next 5 >>= λ r.
            ok (true, answer default_handlers next (pos 1) m' c' r)))
unfolding Message.login session_at
serve-login_example =
    serve-login default_handlers login_request opened_connection (pos 1) entered_manager entered 5
      refl refl login_cookie entered-IsNumbered (omega arith) refl refl
