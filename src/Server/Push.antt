-- ===== src/Server/Push.antt =====
-- server/Server.cpp: `Server::create_dirs` and `Server::push`, with the writing of files of
-- comm/Utils.cpp. `push` begins here when the wait for `active_thread_` is over.
pub mod Effects
use pds_progetto.Cpp.Files.{Files}
use pds_progetto.Server.Sqlite.{Sqlite}
use pds_progetto.Server.Session.{
  Session, create_file, modify_file, remove_file, create_dir, remove_dir,
}
use pds_progetto.Cpp.Effect.{Effect, on, modify, pure, ◌>>=◌, ◌>>◌, reads, when, catching}
use pds_progetto.Base.{
  Text, Bool, Option, List, if◌then◌else◌, true, false, ◌∷◌, none, some, [], not,
}
use pds_progetto.Comm.Message.{
  ElementStatus, Bytes, created_file, created_dir, modified_file, erased_file, erased_dir,
  unnamed_status,
}
use pds_progetto.Cpp.Result.{ok}

module _ (F : Files) (S : Sqlite) where
  -- What a handler of the server can change.
  pub record ServerState : Type 0 where
    pub session : Session
    pub files : F.State
    pub db : S.Conn

  abbrev pub on_files : {A : Type 0} → Effect F.State A → Effect ServerState A
  on_files = on (λ s. s.files) (λ f s. record s { files = f })

  -- A method of the session on the database.
  unfoldable pub on_db : (Session → S.Conn → Bool × S.Conn) → Effect ServerState Bool
  on_db m s = let (b, db') = m s.session s.db in (ok b, record s { db = db' })

  -- `Utils::write_on_file`.
  unfoldable pub write_on_file : Text → Bytes → Effect F.State (Unit {0})
  write_on_file path file fs = (ok tt, F.open_write fs path file)

  -- `if (!fs::exists(dir)) fs::create_directory(dir);`
  unfoldable pub ensure_directory : Text → Effect F.State (Unit {0})
  ensure_directory dir = do
    there ← reads (λ fs. F.exists fs dir)
    when (not there) (do made ← F.create_directory dir; pure tt)

  unfoldable pub make_dirs : Text → List Text → Effect F.State (Unit {0})
  unfolding ensure_directory
  make_dirs dir [] = pure tt
  make_dirs dir (p ∷ ps) =
      let rest = make_dirs (F.append dir p) ps in do ensure_directory (F.append dir p); rest

  unfoldable pub create_dirs : Text → Text → Effect F.State (Unit {0})
  unfolding make_dirs
  create_dirs base path = make_dirs base (F.elements (F.remove_leaf path))

  abbrev pub set_active : Bool → ServerState → ServerState
  set_active b s = record s { session = record (s.session) { active_thread = b } }

  -- `session->active_thread_ = false; session->cv_.notify_one();`
  unfoldable pub release : Effect ServerState (Unit {0})
  release = modify (set_active false)

  -- The end of a case of the `switch`: `none` is its `break`, `some` its early return.
  unfoldable pub checked : Bool → Effect ServerState (Option Bool)
  unfolding release
  checked done = if done then pure none else (do release; pure (some false))

  -- `if (fs::exists(p)) m;`
  unfoldable pub if_exists : {A : Type 0} → Text → Effect F.State A → Effect F.State (Unit {0})
  if_exists path m = do there ← reads (λ fs. F.exists fs path); when there (do removed ← m; pure tt)

  unfoldable pub apply_change :
      ElementStatus → Text → Text → Bytes → Text → Effect ServerState (Option Bool)
  unfolding release checked on_db write_on_file if_exists ensure_directory create_file modify_file
      remove_file create_dir remove_dir
  apply_change created_file disk virt file hash = do
    on_files (write_on_file disk file)
    done ← on_db (λ session. create_file S session virt hash)
    checked done
  apply_change modified_file disk virt file hash = do
    done ← on_db (λ _. modify_file S virt hash)
    if done then (do on_files (write_on_file disk file); pure none) else checked false
  apply_change erased_file disk virt file hash = do
    on_files (if_exists disk (F.remove disk))
    done ← on_db (λ _. remove_file S virt)
    checked done
  apply_change created_dir disk virt file hash = do
    on_files (ensure_directory disk)
    done ← on_db (λ session. create_dir S session virt hash)
    checked done
  apply_change erased_dir disk virt file hash = do
    on_files (if_exists disk (F.remove_all disk))
    done ← on_db (λ _. remove_dir S virt)
    checked done
  apply_change (unnamed_status _) disk virt file hash = do release; pure (some false)

  abbrev pub is_creation : ElementStatus → Bool
  is_creation created_file = true
  is_creation created_dir = true
  is_creation _ = false

  -- The `try` block.
  unfoldable pub attempt :
      Text → Text → Text → Bytes → Text → ElementStatus → Effect ServerState (Option Bool)
  unfolding apply_change create_dirs
  attempt root user path file hash status = do
    when (is_creation status) (on_files (create_dirs (F.append root user) path))
    apply_change status (F.append (F.append root user) path) (F.append user path) file hash

  unfoldable pub finish : Option Bool → Effect ServerState Bool
  unfolding release
  finish none = do release; pure true
  finish (some b) = pure b

  unfoldable pub push : Text → Text → Bytes → Text → ElementStatus → Effect ServerState Bool
  unfolding attempt finish release
  push root path file hash status s = push_for s.session.user s
    where
      push_for : Text → Effect ServerState Bool
      push_for user = do
        modify (set_active true)
        r ← catching (attempt root user path file hash status) (do release; pure (some false))
        finish r
