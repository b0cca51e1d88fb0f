-- ===== src/Server/Database/Semantics.antt =====
-- What the database methods rely on: the documented behaviour of the SQLite calls, over a view of
-- the connection as two tables and of a statement as a query with its bound arguments.
use pds_progetto.Base.{
  ℕ, suc, Text, Bool, true, false, List, [], ◌∷◌, ◌++◌, ◌≡◌, ◌≢◌, ◌⊎◌, ◌==◌, if◌then◌else◌,
}
use pds_progetto.Base.Int.{ℤ, pos}
use pds_progetto.Server.Sqlite.{Sqlite, sqlite_ok, sqlite_row, sqlite_done}
use pds_progetto.Server.Table.{Row, User, has_path, without_path, with_hash, rows_of, count_users}
use pds_progetto.Server.Database.{
  Query, login_user, select_paths, insert_row, delete_row, update_row, select_schema, sql,
}

pub record IsSqlite (S : Sqlite) : Type 0 where
  pub sessions : S.Conn → List Row
  pub users : S.Conn → List User
  -- Statements that are not finalized yet.
  pub live : S.Conn → ℕ
  pub is_null : S.Stmt → Bool
  pub query : S.Stmt → Query
  pub fresh : S.Stmt → Bool
  pub text_arg : S.Stmt → ℕ → Text
  pub int_arg : S.Stmt → ℕ → ℤ
  -- The rows that a query is still to return.
  pub pending : S.Stmt → S.Conn → List Row
  -- A failed `prepare` yields no statement.
  pub prepare_keeps :
      (c : S.Conn) (k : Query)
      → (sessions (S.prepare c (sql k)).2 ≡ sessions c) × (users (S.prepare c (sql k)).2 ≡ users c)
  pub prepare_opens :
      (c : S.Conn) (k : Query)
      → (S.prepare c (sql k)).0 ≡ sqlite_ok
      → (is_null (S.prepare c (sql k)).1 ≡ false)
        × (query (S.prepare c (sql k)).1 ≡ k)
        × (fresh (S.prepare c (sql k)).1 ≡ true)
        × (live (S.prepare c (sql k)).2 ≡ suc (live c))
  pub prepare_fails :
      (c : S.Conn) (k : Query)
      → (S.prepare c (sql k)).0 ≢ sqlite_ok
      → (is_null (S.prepare c (sql k)).1 ≡ true) × (live (S.prepare c (sql k)).2 ≡ live c)
  pub bind_text_keeps :
      (q : S.Stmt) (i : ℕ) (t : Text)
      → (is_null (S.bind_text q i t).1 ≡ is_null q)
        × (query (S.bind_text q i t).1 ≡ query q)
        × (fresh (S.bind_text q i t).1 ≡ fresh q)
  pub bind_text_sets :
      (q : S.Stmt) (i : ℕ) (t : Text) (j : ℕ)
      → (S.bind_text q i t).0 ≡ sqlite_ok
      → (text_arg (S.bind_text q i t).1 j ≡ (if i == j then t else text_arg q j))
        × (int_arg (S.bind_text q i t).1 j ≡ int_arg q j)
  pub bind_int_keeps :
      (q : S.Stmt) (i : ℕ) (n : ℤ)
      → (is_null (S.bind_int q i n).1 ≡ is_null q)
        × (query (S.bind_int q i n).1 ≡ query q)
        × (fresh (S.bind_int q i n).1 ≡ fresh q)
  pub bind_int_sets :
      (q : S.Stmt) (i : ℕ) (n : ℤ) (j : ℕ)
      → (S.bind_int q i n).0 ≡ sqlite_ok
      → (int_arg (S.bind_int q i n).1 j ≡ (if i == j then n else int_arg q j))
        × (text_arg (S.bind_int q i n).1 j ≡ text_arg q j)
  pub step_keeps :
      (c : S.Conn) (q : S.Stmt)
      → (is_null (S.step c q).1 ≡ is_null q)
        × (query (S.step c q).1 ≡ query q)
        × (live (S.step c q).2 ≡ live c)
        × (users (S.step c q).2 ≡ users c)
  -- A statement that did not run to its end changes no table.
  pub step_unfinished :
      (c : S.Conn) (q : S.Stmt)
      → (S.step c q).0 ≢ sqlite_done
      → sessions (S.step c q).2 ≡ sessions c
  -- The primary key refuses a second row of one path.
  pub step_insert :
      (c : S.Conn) (q : S.Stmt)
      → query q ≡ insert_row
      → (S.step c q).0 ≡ sqlite_done
      → (has_path (text_arg q 1) (sessions c) ≡ false)
        × (sessions (S.step c q).2
            ≡ sessions c
              ++ record {
                path = text_arg q 1;
                hash = text_arg q 2;
                user = text_arg q 3;
                dir = int_arg q 4;
              }
                ∷ [])
  pub step_delete :
      (c : S.Conn) (q : S.Stmt)
      → query q ≡ delete_row
      → (S.step c q).0 ≡ sqlite_done
      → sessions (S.step c q).2 ≡ without_path (text_arg q 1) (sessions c)
  pub step_update :
      (c : S.Conn) (q : S.Stmt)
      → query q ≡ update_row
      → (S.step c q).0 ≡ sqlite_done
      → sessions (S.step c q).2 ≡ with_hash (text_arg q 2) (text_arg q 1) (sessions c)
  -- `SELECT COUNT(*)` returns one row.
  pub step_login :
      (c : S.Conn) (q : S.Stmt)
      → query q ≡ login_user
      → fresh q ≡ true
      → ((S.step c q).0 ≢ sqlite_done)
        × (sessions (S.step c q).2 ≡ sessions c)
        × ((S.step c q).0 ≡ sqlite_row
            → S.column_int (S.step c q).1 0
              ≡ pos (count_users (text_arg q 1) (text_arg q 2) (users c)))
  pub pending_fresh :
      (c : S.Conn) (q : S.Stmt)
      → (query q ≡ select_paths) ⊎ (query q ≡ select_schema)
      → fresh q ≡ true
      → pending q c ≡ rows_of (text_arg q 1) (sessions c)
  pub step_select :
      (c : S.Conn) (q : S.Stmt)
      → (query q ≡ select_paths) ⊎ (query q ≡ select_schema)
      → (sessions (S.step c q).2 ≡ sessions c) × ((S.step c q).0 ≡ sqlite_done → pending q c ≡ [])
  pub step_row :
      (c : S.Conn) (q : S.Stmt)
      → (query q ≡ select_paths) ⊎ (query q ≡ select_schema)
      → (S.step c q).0 ≡ sqlite_row
      → (r : Row) × (pending q c ≡ r ∷ pending (S.step c q).1 (S.step c q).2)
        × (S.column_text (S.step c q).1 0 ≡ r.path)
        × (query q ≡ select_schema
            → (S.column_text (S.step c q).1 1 ≡ r.hash) × (S.column_int (S.step c q).1 2 ≡ r.dir))
  pub finalize_keeps :
      (c : S.Conn) (q : S.Stmt)
      → (sessions (S.finalize c q).1 ≡ sessions c) × (users (S.finalize c q).1 ≡ users c)
  pub finalize_closes :
      (c : S.Conn) (q : S.Stmt)
      → is_null q ≡ false
      → live c ≢ 0
      → suc (live (S.finalize c q).1) ≡ live c
  pub finalize_null :
      (c : S.Conn) (q : S.Stmt) → is_null q ≡ true → live (S.finalize c q).1 ≡ live c
  -- It reports the error of the last evaluation, if there was one.
  pub finalize_ok :
      (c : S.Conn) (q : S.Stmt)
      → ((S.step c q).0 ≡ sqlite_done) ⊎ ((S.step c q).0 ≡ sqlite_row)
      → (S.finalize (S.step c q).2 (S.step c q).1).0 ≡ sqlite_ok

-- No call of a reading method fails.
pub record IsReliable (S : Sqlite) (L : IsSqlite S) : Type 0 where
  pub prepare_ok : (c : S.Conn) (k : Query) → (S.prepare c (sql k)).0 ≡ sqlite_ok
  pub bind_text_ok : (q : S.Stmt) (i : ℕ) (t : Text) → (S.bind_text q i t).0 ≡ sqlite_ok
  pub step_ok :
      (c : S.Conn) (q : S.Stmt)
      → (L.query q ≡ select_paths) ⊎ (L.query q ≡ select_schema)
      → ((S.step c q).0 ≡ sqlite_done) ⊎ ((S.step c q).0 ≡ sqlite_row)
