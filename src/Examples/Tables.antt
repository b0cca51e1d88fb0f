-- ===== src/Examples/Tables.antt =====
-- The database methods at concrete inputs, on a SQLite in memory.
use mathlib.Core.List.{Perm}
use pds_progetto.Base.{
  ◌<◌, true, false, some, [], ◌∷◌, ◌++◌, map, codes, ◌≡◌, refl, arith, length, List, Text,
}
use pds_progetto.Base.Equality.{same_text}
use pds_progetto.Base.Int.{pos}
use pds_progetto.Server.Table.{Row, has_path, without_path, with_hash, rows_of, count_users}
use pds_progetto.Server.Database.{
  dir, c_str, strip_user, insert_path, delete_path, update_path, login_query, get_path_schema,
  get_schema, ◌>>=◌, prepared, bound_text, bound_int, executed, finalized, counted, one_match,
}
use pds_progetto.Server.Database.Parts.{Applies, Unchanged}
use pds_progetto.Server.Database.Effects.{
  new_row, insert_path-Applies, delete_path-Applies, update_path-Applies,
}
use pds_progetto.Server.Database.Login.{login_query-Applies}
use pds_progetto.Server.Database.Rows.{collect, listed_element}
use pds_progetto.Server.Database.Schema.{get_path_schema_exact, get_schema_exact}
use pds_progetto.Server.Database.Memory.{
  MemoryConn, query_of_sql, memory, memory-IsSqlite, memory-IsReliable,
}

abbrev stored : Row
stored = record { path = codes "ann/a.txt"; hash = codes "ab"; user = codes "ann"; dir = pos 0 }

abbrev conn : MemoryConn
conn = record {
  sessions = stored ∷ [];
  users = record { username = codes "ann"; password = codes "pw" } ∷ [];
  live = 0;
}

insert_path-Applies_example :
    Applies memory memory-IsSqlite conn
      (has_path (c_str (codes "ann/b")) conn.sessions ≡ false)
      (conn.sessions
        ++ new_row memory memory-IsSqlite (codes "ann/b") (codes "") (codes "ann") dir ∷ [])
      (insert_path memory (codes "ann/b") (codes "") (codes "ann") dir conn)
insert_path-Applies_example =
    insert_path-Applies memory memory-IsSqlite (codes "ann/b") (codes "") (codes "ann") dir conn

delete_path-Applies_example :
    Applies memory memory-IsSqlite conn Unit
      (without_path (c_str (codes "ann/a.txt")) conn.sessions)
      (delete_path memory (codes "ann/a.txt") conn)
delete_path-Applies_example = delete_path-Applies memory memory-IsSqlite (codes "ann/a.txt") conn

update_path-Applies_example :
    Applies memory memory-IsSqlite conn Unit
      (with_hash (c_str (codes "ann/a.txt")) (c_str (codes "cd")) conn.sessions)
      (update_path memory (codes "ann/a.txt") (codes "cd") conn)
update_path-Applies_example =
    update_path-Applies memory memory-IsSqlite (codes "ann/a.txt") (codes "cd") conn

login_query-Applies_example :
    Applies memory memory-IsSqlite conn
      (count_users (c_str (codes "ann")) (c_str (codes "pw")) conn.users ≡ 1)
      conn.sessions
      (login_query memory (λ t. t) (codes "ann") (codes "pw") conn)
login_query-Applies_example =
    login_query-Applies memory memory-IsSqlite (λ t. t) (codes "ann") (codes "pw") conn

one_row : length (rows_of (c_str (codes "ann")) conn.sessions) < 2
unfolding rows_of c_str same_text
one_row = omega arith

get_path_schema_exact_example :
    (paths : List Text) × (c' : MemoryConn) × (get_path_schema memory 2 (codes "ann") conn
      ≡ some (paths, c'))
    × Perm paths (map (λ r. strip_user r.path) (rows_of (c_str (codes "ann")) conn.sessions))
    × Unchanged memory memory-IsSqlite conn c'
get_path_schema_exact_example =
    get_path_schema_exact memory memory-IsSqlite memory-IsReliable 2 (codes "ann") conn one_row

get_schema_exact_example :
    (c' : MemoryConn) × (get_schema memory 2 (codes "ann") conn
      ≡ some (collect listed_element [] (rows_of (c_str (codes "ann")) conn.sessions), c'))
    × Unchanged memory memory-IsSqlite conn c'
get_schema_exact_example =
    get_schema_exact memory memory-IsSqlite memory-IsReliable 2 (codes "ann") conn one_row

-- The row that was stored and the login that it lets in.
test_insert : (insert_path memory (codes "ann/b") [] (codes "ann") dir conn).0 ≡ true
unfolding insert_path ◌>>=◌ prepared query_of_sql bound_text bound_int executed has_path same_text
    c_str finalized
test_insert = refl

test_login : (login_query memory (λ t. t) (codes "ann") (codes "pw") conn).0 ≡ true
unfolding login_query ◌>>=◌ prepared query_of_sql bound_text counted one_match count_users same_text
    c_str finalized
test_login = refl
