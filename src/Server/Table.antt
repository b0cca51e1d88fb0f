-- ===== src/Server/Table.antt =====
-- The tables of database/remote_backup.db as lists of rows, and what the program's SQL statements
-- mean on them.
use pds_progetto.Base.{
  ℕ, suc, Text, Bool, false, List, [], ◌∷◌, ◌&&◌, ◌||◌, same_text, if◌then◌else◌,
}
use pds_progetto.Base.Int.{ℤ}

-- A row of SESSIONS.
pub record Row : Type 0 where
  pub path : Text
  pub hash : Text
  pub user : Text
  pub dir : ℤ

-- A row of USERS.
pub record User : Type 0 where
  pub username : Text
  pub password : Text

unfoldable pub has_path : Text → List Row → Bool
has_path path [] = false
has_path path (r ∷ rows) = same_text r.path path || has_path path rows

unfoldable pub without_path : Text → List Row → List Row
without_path path [] = []
without_path path (r ∷ rows) =
    let rest = without_path path rows in if same_text r.path path then rest else r ∷ rest

unfoldable pub with_hash : Text → Text → List Row → List Row
with_hash path hash [] = []
with_hash path hash (r ∷ rows) =
    (if same_text r.path path then record r { hash = hash } else r) ∷ with_hash path hash rows

unfoldable pub rows_of : Text → List Row → List Row
rows_of user [] = []
rows_of user (r ∷ rows) =
    let rest = rows_of user rows in if same_text r.user user then r ∷ rest else rest

unfoldable pub count_users : Text → Text → List User → ℕ
count_users name password [] = 0
count_users name password (u ∷ users) =
    let rest = count_users name password users in
    if same_text u.username name && same_text u.password password then suc rest else rest
