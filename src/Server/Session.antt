-- ===== src/Server/Session.antt =====
-- server/Session.h and server/Session.cpp. The mutex and the condition variable of a session are
-- not state of the model, and `latest_usage`, which nothing reads, is left out.
use pds_progetto.Base.{ℕ, Text, Bool, false, List, [], Option}
use pds_progetto.Base.Int.{ℤ, pos}
use pds_progetto.Base.Dict.{Dict}
use pds_progetto.Cpp.Numbers.{to_string}
use pds_progetto.Comm.Utils.{sign_cookie}
use pds_progetto.Server.Sqlite.{Sqlite}
use pds_progetto.Server.Database.{PathType, file, dir, insert_path, update_path, delete_path}
use pds_progetto.Server.Database

pub record Session : Type 0 where
  pub session_id : ℤ
  pub user : Text
  pub login_status : Bool
  -- An `atomic<int>`.
  pub thread_count : ℤ
  pub active_thread : Bool

-- The constructor and the initializers of the members.
unfoldable pub new_session : ℤ → Session
new_session session_id = record {
  session_id = session_id;
  user = [];
  login_status = false;
  thread_count = pos 0;
  active_thread = false;
}

unfoldable pub get_cookie : Session → Text
unfolding sign_cookie to_string
get_cookie s = sign_cookie (to_string s.session_id)

unfoldable pub is_logged_in : Session → Bool
is_logged_in s = s.login_status

module _ (S : Sqlite) where
  unfoldable pub create_file : Session → Text → Text → S.Conn → Bool × S.Conn
  create_file s path hash = insert_path S path hash s.user file

  unfoldable pub modify_file : Text → Text → S.Conn → Bool × S.Conn
  modify_file path hash = update_path S path hash

  unfoldable pub remove_file : Text → S.Conn → Bool × S.Conn
  remove_file path = delete_path S path

  unfoldable pub get_path_schema : ℕ → Session → S.Conn → Option (List Text × S.Conn)
  get_path_schema fuel s = Database.get_path_schema S fuel s.user

  unfoldable pub create_dir : Session → Text → Text → S.Conn → Bool × S.Conn
  create_dir s path hash = insert_path S path hash s.user dir

  unfoldable pub remove_dir : Text → S.Conn → Bool × S.Conn
  remove_dir path = delete_path S path

  unfoldable pub get_schema : ℕ → Session → S.Conn → Option (Dict Text Text × S.Conn)
  get_schema fuel s = Database.get_schema S fuel s.user
