-- ===== src/Server/Database.antt =====
-- server/Database_API.h and server/Database_API.cpp over any SQLite. A method takes the connection
-- `db_` and returns its result beside the connection that it leaves.
use pds_progetto.Base.{
  ℕ, zero, suc, Text, String, Bool, true, false, List, [], ◌∷◌, ◌++◌, Option, none, some, ◌==◌, not,
  ◌||◌, if◌then◌else◌,
}
use pds_progetto.Base.Int.{ℤ, pos, ◌==ℤ◌}
pub mod Semantics
pub mod Parts
pub mod Effects
pub mod Login
pub mod Rows
pub mod Schema
pub mod Memory
use pds_progetto.Base.{text_eq}
use pds_progetto.Base.Dict.{Dict, insert}
use pds_progetto.Server.Sqlite.{Sqlite, sqlite_ok, sqlite_row, sqlite_done}

pub data PathType : Type 0 where
  file dir : PathType

-- The value of the enumerator, as `sqlite3_bind_int` receives it.
unfoldable pub type_code : PathType → ℤ
type_code file = pos 0
type_code dir = pos 1

-- A length of -1 makes `sqlite3_bind_text` read up to the first zero byte.
unfoldable pub c_str : Text → Text
c_str [] = []
c_str (zero ∷ s) = []
c_str (suc c ∷ s) = suc c ∷ c_str s

after_separator : Text → Option Text
after_separator [] = none
after_separator (c ∷ s) = if c == b'/' then some s else after_separator s

or_whole : Text → Option Text → Text
or_whole s none = s
or_whole s (some rest) = rest

-- `s.substr(s.find('/') + 1)`: with no separator `find` is `npos`, and `npos + 1` is 0.
unfoldable pub strip_user : Text → Text
unfolding after_separator or_whole
strip_user s = or_whole s (after_separator s)

-- The six statements that the class prepares.
pub data Query : Type 0 where
  login_user select_paths insert_row delete_row update_row select_schema : Query

unfoldable pub sql : Query → String
sql login_user = "SELECT COUNT(*) FROM USERS WHERE username = ? AND password = ?"
sql select_paths = "SELECT path FROM SESSIONS WHERE user = ?"
sql insert_row = "INSERT INTO SESSIONS(path,hash,user,dir) values(?,?,?,?)"
sql delete_row = "DELETE FROM SESSIONS WHERE path = ?"
sql update_row = "UPDATE SESSIONS SET hash = ? WHERE path = ?"
sql select_schema = "SELECT path, hash, dir FROM SESSIONS WHERE user = ?"

module _ (S : Sqlite) where
  open S use {Conn, Stmt, prepare, bind_text, bind_int, step, column_text, column_int, finalize}

  -- A part of a method: `none` is its early return, after the statement was finalized.
  abbrev pub Part : Type 0 → Type 0
  Part A = Conn → Option A × Conn

  infixl 5 ◌>>=◌
  unfoldable pub ◌>>=◌ : {A B : Type 0} → Part A → (A → Part B) → Part B
  ◌>>=◌ m f db = let (r, db') = m db in elim r [ none ↦ (none, db') | some a ↦ f a db' ]

  -- `sqlite3_finalize(query); return ...;`
  unfoldable pub give_up : {A : Type 0} → Stmt → Part A
  give_up q db = (none, (finalize db q).1)

  unfoldable pub prepared : String → Part Stmt
  unfolding give_up
  prepared sql db =
      let (rc, q, db') = prepare db sql in if rc == sqlite_ok then (some q, db') else give_up q db'

  unfoldable pub bound_text : ℕ → Text → Stmt → Part Stmt
  unfolding give_up
  bound_text i t q db =
      let (rc, q') = bind_text q i (c_str t) in
      if rc == sqlite_ok then (some q', db) else give_up q' db

  unfoldable pub bound_int : ℕ → ℤ → Stmt → Part Stmt
  unfolding give_up
  bound_int i n q db =
      let (rc, q') = bind_int q i n in if rc == sqlite_ok then (some q', db) else give_up q' db

  -- `sqlite3_step` of a statement that returns no row.
  unfoldable pub executed : Stmt → Part Stmt
  unfolding give_up
  executed q db =
      let (rc, q', db') = step db q in if rc == sqlite_done then (some q', db') else give_up q' db'

  unfoldable pub finalized : Stmt → Part (Unit {0})
  finalized q db =
      let (rc, db') = finalize db q in if rc == sqlite_ok then (some tt, db') else (none, db')

  abbrev pub succeeded : Option (Unit {0}) × Conn → Bool × Conn
  succeeded (none, db) = (false, db)
  succeeded (some u, db) = (true, db)

  unfoldable pub insert_path : Text → Text → Text → PathType → Conn → Bool × Conn
  insert_path path hash username type db = succeeded (body db)
    where
      body : Part (Unit {0})
      body = do
        q ← prepared (sql insert_row)
        q ← bound_text 1 path q
        q ← bound_text 2 hash q
        q ← bound_text 3 username q
        q ← bound_int 4 (type_code type) q
        q ← executed q
        finalized q

  unfoldable pub delete_path : Text → Conn → Bool × Conn
  delete_path path db = succeeded (body db)
    where
      body : Part (Unit {0})
      body = do q ← prepared (sql delete_row); q ← bound_text 1 path q; q ← executed q; finalized q

  unfoldable pub update_path : Text → Text → Conn → Bool × Conn
  update_path path hash db = succeeded (body db)
    where
      body : Part (Unit {0})
      body = do
        q ← prepared (sql update_row)
        q ← bound_text 1 hash q
        q ← bound_text 2 path q
        q ← executed q
        finalized q

  -- `sqlite3_step` of the count query, which may also return a row.
  unfoldable pub counted : Stmt → Part Stmt
  unfolding give_up
  counted q db =
      let (rc, q', db') = step db q in
      if rc == sqlite_done || rc == sqlite_row then (some q', db') else give_up q' db'

  unfoldable pub one_match : Stmt → Part Stmt
  unfolding give_up
  one_match q db = if column_int q 0 ==ℤ pos 1 then (some q, db) else give_up q db

  -- The stored password is the digest `hash_of password`.
  unfoldable pub login_query : (Text → Text) → Text → Text → Conn → Bool × Conn
  login_query hash_of username password db = succeeded (body db)
    where
      body : Part (Unit {0})
      body = do
        q ← prepared (sql login_user)
        q ← bound_text 1 username q
        q ← bound_text 2 (hash_of password) q
        q ← counted q
        q ← one_match q
        finalized q

  -- The loop over the rows of a query, on fuel; `none` means that the fuel ran out. Every way out
  -- finalizes the statement and returns what was read so far.
  unfoldable pub read_rows : {R : Type 0} → ℕ → (Stmt → R → R) → R → Stmt → Conn → Option (R × Conn)
  read_rows zero add res q db = none
  read_rows (suc fuel) add res q db =
      let (rc, q', db') = step db q in
      let rest = read_rows fuel add (add q' res) q' db' in
      if rc == sqlite_row then rest else some (res, (finalize db' q').1)

  read_all : {R : Type 0} → ℕ → (Stmt → R → R) → R → Option Stmt × Conn → Option (R × Conn)
  unfolding read_rows
  read_all fuel add res (none, db) = some (res, db)
  read_all fuel add res (some q, db) = read_rows fuel add res q db

  unfoldable pub add_path : Stmt → List Text → List Text
  unfolding strip_user
  add_path q res = res ++ strip_user (column_text q 0) ∷ []

  unfoldable pub get_path_schema : ℕ → Text → Conn → Option (List Text × Conn)
  unfolding read_all
  get_path_schema fuel username db = read_all fuel add_path [] (query db)
    where
      query : Part Stmt
      query = do q ← prepared (sql select_paths); bound_text 1 username q

  -- A directory is listed with an empty hash.
  unfoldable pub add_element : Stmt → Dict Text Text → Dict Text Text
  unfolding strip_user insert type_code
  add_element q res =
      insert (strip_user (column_text q 0))
        (if column_int q 2 ==ℤ type_code file then column_text q 1 else []) res

  unfoldable pub get_schema : ℕ → Text → Conn → Option (Dict Text Text × Conn)
  unfolding read_all
  get_schema fuel username db = read_all fuel add_element [] (query db)
    where
      query : Part Stmt
      query = do q ← prepared (sql select_schema); bound_text 1 username q
