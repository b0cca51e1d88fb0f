-- ===== src/Server/Handlers.antt =====
-- server/Server.cpp: the handlers that `Server::server_init` installs, and `Server::accept`. A query
-- that does not end within the fuel is a failure; Server/Handlers/Queries.antt shows that the number
-- of the user's rows and one more is enough.
pub mod Access
pub mod Queries
use pds_progetto.Base.{
  ℕ, if◌then◌else◌, leb, Text, ◌+◌, Option, Bool, List, true, false, some, [], none,
}
use pds_progetto.Cpp.Files.{Files}
use pds_progetto.Server.Sqlite.{Sqlite}
use pds_progetto.Comm.Utils.{Sha256, hash}
use pds_progetto.Server.Push.{ensure_directory, push}
use pds_progetto.Server.Database.{login_query}
use pds_progetto.Server.Session.{get_schema, Session, get_path_schema}
use pds_progetto.Comm.Message.{Bytes, ElementStatus, created_file, created_dir}
use pds_progetto.Comm.ServerApi.{Handlers}
use pds_progetto.Cpp.Result.{Result, ok, throws, ◌>>=◌, runtime_error}
use pds_progetto.Comm.CommError.{CommError}
use pds_progetto.Base.Dict.{Dict}

module _ (F : Files) (S : Sqlite) (H : Sha256) (fuel : ℕ) (root : Text) where
  pub record World : Type 0 where
    pub files : F.State
    pub db : S.Conn

  -- `Server::login` after the query.
  unfoldable pub admit : Bool → Session → Text → World → Result (Bool × Session × World)
  unfolding ensure_directory
  admit false session username w = ok (false, session, w)
  admit true session username w =
      let (r, files') = ensure_directory F S (F.append root username) w.files in
      do
        done ← r
        ok (
          true,
          record session { login_status = true; user = username },
          record w { files = files' },
        )

  unfoldable pub login : Session → Text → Text → World → Result (Bool × Session × World)
  unfolding admit login_query hash
  login session username password w =
      let (accepted, db') = login_query S (hash H) username password w.db in
      admit accepted session username (record w { db = db' })

  abbrev pub finished : {A : Type 0} → World → Option (A × S.Conn) → Result (A × World)
  finished w none = throws runtime_error
  finished w (some (a, db')) = ok (a, record w { db = db' })

  unfoldable pub probe : Session → List Text → World → Result (Dict Text Text × World)
  unfolding get_schema
  probe session paths w = finished w (get_schema S fuel session w.db)

  -- `Utils::read_from_file`: a stream that cannot be opened reads nothing.
  unfoldable pub read_from_file : F.State → Text → Bytes
  read_from_file files path = elim (F.open_read files path) [ none ↦ [] | some bytes ↦ bytes ]

  unfoldable pub get : Session → Text → World → Result (Bytes × ElementStatus × World)
  unfolding read_from_file
  get session path w = do
    let dest_path = F.append (F.append root session.user) path
    regular ← F.is_regular_file w.files dest_path
    ok (
        if regular
        then (read_from_file w.files dest_path, created_file, w)
        else ([], created_dir, w))

  unfoldable pub push_file :
      Session → Text → Bytes → Text → ElementStatus → World → Result (Bool × Session × World)
  unfolding push
  push_file session path file hash status w =
      let (r, s) =
        push F S root path file hash status
          (record { session = session; files = w.files; db = w.db }) in
      do done ← r; ok (done, s.session, record { files = s.files; db = s.db })

  unfoldable pub restore : Session → World → Result (List Text × World)
  unfolding get_path_schema
  restore session w = finished w (get_path_schema S fuel session w.db)

  unfoldable pub end : Session → World → Result (Bool × World)
  end session w = ok (true, w)

  -- It only writes to the log.
  unfoldable pub handle_error : Session → CommError → World → World
  handle_error session e w = w

  -- `Server::server_init`.
  abbrev pub server_init : Handlers World
  server_init = record {
    login = login;
    probe = probe;
    get = get;
    push = push_file;
    restore = restore;
    end = end;
    handle_error = handle_error;
  }

-- `Server::accept`: what becomes of an accepted connection, and `n_active_threads_` afterwards.
pub data Served : Type 0 where
  discarded running : Served

abbrev pub max_threads : ℕ
max_threads = 32

unfoldable pub accept : ℕ → Served × ℕ
accept n_active_threads =
    if leb max_threads n_active_threads
    then (discarded, n_active_threads)
    else (running, n_active_threads + 1)
