-- ===== src/Server/Database/Memory.antt =====
-- A SQLite in memory: the laws that the proofs rely on can hold.
use text.Mathlib.Text.{◌==◌ as str_eq}
use pds_progetto.Base.{
  ℕ, suc, ◌-◌, Text, String, Bool, true, false, Option, none, some, List, [], ◌∷◌, ◌++◌, ◌≡◌, ◌≢◌,
  refl, ◌⊎◌, inl, inr, ◌==◌, if◌then◌else◌, arith,
}
use pds_progetto.Base.Int.{ℤ, pos}
use pds_progetto.Server.Sqlite.{Sqlite, sqlite_ok, sqlite_row, sqlite_done}
use pds_progetto.Server.Table.{Row, User, has_path, without_path, with_hash, rows_of, count_users}
use pds_progetto.Server.Database.{
  Query, login_user, select_paths, insert_row, delete_row, update_row, select_schema, sql,
}
use pds_progetto.Server.Database.Semantics.{IsSqlite, IsReliable}

pub record MemoryConn : Type 0 where
  pub sessions : List Row
  pub users : List User
  pub live : ℕ

pub record MemoryStmt : Type 0 where
  pub is_null : Bool
  pub query : Query
  pub fresh : Bool
  pub texts : ℕ → Text
  pub ints : ℕ → ℤ
  pub rows : List Row
  pub cell : Row
  pub count : ℕ

abbrev no_row : Row
no_row = record { path = []; hash = []; user = []; dir = pos 0 }

abbrev new_stmt : Bool → Query → MemoryStmt
new_stmt null k = record {
  is_null = null;
  query = k;
  fresh = true;
  texts = λ _. [];
  ints = λ _. pos 0;
  rows = [];
  cell = no_row;
  count = 0;
}

unfoldable pub query_of_sql : String → Option Query
unfolding sql
query_of_sql s =
    if str_eq s (sql login_user)
    then some login_user
    else if str_eq s (sql select_paths)
    then some select_paths
    else if str_eq s (sql insert_row)
    then some insert_row
    else if str_eq s (sql delete_row)
    then some delete_row
    else if str_eq s (sql update_row)
    then some update_row
    else if str_eq s (sql select_schema)
    then some select_schema
    else none

pub query_of_sql-sql : (k : Query) → query_of_sql (sql k) ≡ some k
unfolding query_of_sql sql
query_of_sql-sql login_user = refl
query_of_sql-sql select_paths = refl
query_of_sql-sql insert_row = refl
query_of_sql-sql delete_row = refl
query_of_sql-sql update_row = refl
query_of_sql-sql select_schema = refl

abbrev opened : MemoryConn → Option Query → ℕ × MemoryStmt × MemoryConn
opened c none = (1, new_stmt true login_user, c)
opened c (some k) = (0, new_stmt false k, record c { live = suc c.live })

abbrev bound : {A : Type 0} → ℕ → A → (ℕ → A) → ℕ → A
bound i a f j = if i == j then a else f j

abbrev select_step : MemoryConn → MemoryStmt → List Row → ℕ × MemoryStmt × MemoryConn
select_step c q [] = (sqlite_done, record q { fresh = false; rows = [] }, c)
select_step c q (r ∷ rows) = (sqlite_row, record q { fresh = false; rows = rows; cell = r }, c)

abbrev pending_rows : MemoryStmt → MemoryConn → List Row
pending_rows q c = if q.fresh then rows_of (q.texts 1) c.sessions else q.rows

abbrev query_step : Query → MemoryConn → MemoryStmt → ℕ × MemoryStmt × MemoryConn
query_step login_user c q =
    (sqlite_row, record q { fresh = false; count = count_users (q.texts 1) (q.texts 2) c.users }, c)
query_step select_paths c q = select_step c q (pending_rows q c)
query_step insert_row c q = if has_path (q.texts 1) c.sessions then (19, q, c) else (
  sqlite_done,
  q,
  record c {
    sessions =
        c.sessions
        ++ record { path = q.texts 1; hash = q.texts 2; user = q.texts 3; dir = q.ints 4 } ∷ [];
  },
)
query_step delete_row c q =
    (sqlite_done, q, record c { sessions = without_path (q.texts 1) c.sessions })
query_step update_row c q =
    (sqlite_done, q, record c { sessions = with_hash (q.texts 2) (q.texts 1) c.sessions })
query_step select_schema c q = select_step c q (pending_rows q c)

abbrev Selects : Query → Type 0
Selects k = (k ≡ select_paths) ⊎ (k ≡ select_schema)

abbrev Keeps : MemoryConn → MemoryStmt → ℕ × MemoryStmt × MemoryConn → Type 0
Keeps c q (rc, q', c') =
    (q'.is_null ≡ q.is_null)
    × (q'.query ≡ q.query)
    × (c'.live ≡ c.live)
    × (c'.users ≡ c.users)
    × (rc ≢ sqlite_done → c'.sessions ≡ c.sessions)

select_step-Keeps :
    (c : MemoryConn) (q : MemoryStmt) (rows : List Row) → Keeps c q (select_step c q rows)
select_step-Keeps c q [] = (refl, refl, refl, refl, λ _. refl)
select_step-Keeps c q (r ∷ rows) = (refl, refl, refl, refl, λ _. refl)

pub query_step-Keeps : (k : Query) (c : MemoryConn) (q : MemoryStmt) → Keeps c q (query_step k c q)
query_step-Keeps login_user c q = (refl, refl, refl, refl, λ _. refl)
query_step-Keeps select_paths c q = select_step-Keeps c q (pending_rows q c)
query_step-Keeps insert_row c q = ground arith
query_step-Keeps delete_row c q = (refl, refl, refl, refl, λ n. absurd (n refl))
query_step-Keeps update_row c q = (refl, refl, refl, refl, λ n. absurd (n refl))
query_step-Keeps select_schema c q = select_step-Keeps c q (pending_rows q c)

-- What a step of a query shows of its pending rows.
abbrev Shows : MemoryConn → List Row → ℕ × MemoryStmt × MemoryConn → Type 0
Shows c rows (rc, q', c') =
    (c'.sessions ≡ c.sessions)
    × (rc ≡ sqlite_done → rows ≡ [])
    × (rc ≡ sqlite_row → rows ≡ q'.cell ∷ pending_rows q' c')
    × ((rc ≡ sqlite_done) ⊎ (rc ≡ sqlite_row))

select_step-Shows :
    (c : MemoryConn) (q : MemoryStmt) (rows : List Row) → Shows c rows (select_step c q rows)
select_step-Shows c q [] = (refl, λ _. refl, λ e. absurd (omega arith), inl refl)
select_step-Shows c q (r ∷ rows) = (refl, λ e. absurd (omega arith), λ _. refl, inr refl)

pub query_step-Shows :
    (k : Query) (c : MemoryConn) (q : MemoryStmt)
    → Selects k
    → Shows c (pending_rows q c) (query_step k c q)
query_step-Shows select_paths c q s = select_step-Shows c q (pending_rows q c)
query_step-Shows select_schema c q s = select_step-Shows c q (pending_rows q c)
query_step-Shows login_user c q s = absurd (ground arith)
query_step-Shows insert_row c q s = absurd (ground arith)
query_step-Shows delete_row c q s = absurd (ground arith)
query_step-Shows update_row c q s = absurd (ground arith)

abbrev pub memory : Sqlite
memory = record {
  Conn = MemoryConn;
  Stmt = MemoryStmt;
  prepare = λ c s. opened c (query_of_sql s);
  bind_text = λ q i t. (sqlite_ok, record q { texts = bound i t q.texts });
  bind_int = λ q i n. (sqlite_ok, record q { ints = bound i n q.ints });
  step = λ c q. query_step q.query c q;
  column_text = λ q i. if i == 0 then q.cell.path else q.cell.hash;
  column_int = λ q i. if i == 0 then pos q.count else q.cell.dir;
  finalize = λ c q. (sqlite_ok, if q.is_null then c else record c { live = c.live - 1 });
}

abbrev pub memory-IsSqlite : IsSqlite memory
memory-IsSqlite = record {
  sessions = λ c. c.sessions;
  users = λ c. c.users;
  live = λ c. c.live;
  is_null = λ q. q.is_null;
  query = λ q. q.query;
  fresh = λ q. q.fresh;
  text_arg = λ q. q.texts;
  int_arg = λ q. q.ints;
  pending = pending_rows;
  prepare_keeps = λ c k. rw (query_of_sql-sql k) (refl, refl);
  prepare_opens = λ c k e. rw (query_of_sql-sql k) (refl, refl, refl, refl);
  prepare_fails = λ c k n. absurd (n (rw (query_of_sql-sql k) refl));
  bind_text_keeps = λ q i t. (refl, refl, refl);
  bind_text_sets = λ q i t j e. (refl, refl);
  bind_int_keeps = λ q i t. (refl, refl, refl);
  bind_int_sets = λ q i t j e. (refl, refl);
  step_keeps = λ c q. let h = query_step-Keeps q.query c q in (h.0, h.1, h.2, h.3);
  step_unfinished = λ c q. (query_step-Keeps q.query c q).4;
  step_insert = λ c q e d. ground arith;
  step_delete = λ c q e d. ground arith;
  step_update = λ c q e d. ground arith;
  step_login = λ c q e f. ground arith;
  pending_fresh = λ c q e f. rw f refl;
  step_select = λ c q s. let h = query_step-Shows q.query c q s in (h.0, h.1);
  step_row = λ c q s e.
      ((memory.step c q).1.cell, (query_step-Shows q.query c q s).2 e, refl, λ _. (refl, refl));
  finalize_keeps = λ c q. ground arith;
  finalize_closes = λ c q e n. ground arith;
  finalize_null = λ c q e. rw e refl;
  finalize_ok = λ c q e. refl;
}

pub memory-IsReliable : IsReliable memory memory-IsSqlite
memory-IsReliable = record {
  prepare_ok = λ c k. rw (query_of_sql-sql k) refl;
  bind_text_ok = λ q i t. refl;
  step_ok = λ c q s. (query_step-Shows q.query c q s).3;
}
