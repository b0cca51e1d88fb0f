-- ===== src/Server/Sqlite.antt =====
-- The SQLite C API as server/Database_API.cpp calls it: a parameter, with its documented behaviour
-- as laws. The schema is that of database/remote_backup.db: USERS(username, password) and
-- SESSIONS(path, hash, user, dir), where `path` is the primary key.
use pds_progetto.Base.{ℕ, Text, String}
use pds_progetto.Base.Int.{ℤ}

pub record Sqlite : Type 1 where
  pub Conn : Type 0
  pub Stmt : Type 0
  -- Each call returns its result code first.
  pub prepare : Conn → String → ℕ × Stmt × Conn
  pub bind_text : Stmt → ℕ → Text → ℕ × Stmt
  pub bind_int : Stmt → ℕ → ℤ → ℕ × Stmt
  pub step : Conn → Stmt → ℕ × Stmt × Conn
  pub column_text : Stmt → ℕ → Text
  pub column_int : Stmt → ℕ → ℤ
  pub finalize : Conn → Stmt → ℕ × Conn

abbrev pub sqlite_ok : ℕ
sqlite_ok = 0

abbrev pub sqlite_row : ℕ
sqlite_row = 100

abbrev pub sqlite_done : ℕ
sqlite_done = 101
