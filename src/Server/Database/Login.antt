-- ===== src/Server/Database/Login.antt =====
-- `Database_API::login_query`.
use pds_progetto.Base.{ℕ, suc, Text, false, ◌≡◌, inl, inr, ◌==◌, arith, Bool-cases, ◌||◌}
use pds_progetto.Base.Int.{ℤ, pos}
use pds_progetto.Server.Sqlite.{Sqlite, sqlite_ok, sqlite_row, sqlite_done}
use pds_progetto.Server.Table.{count_users}
use pds_progetto.Server.Database.{login_user, c_str, counted, one_match, login_query}
use pds_progetto.Server.Database.Semantics.{IsSqlite}
use pds_progetto.Server.Database.Parts.{
  Loaded, Yields, Executed, Applies, bind-Yields, prepared-Yields, bound_text-Yields,
  finalized-Yields, succeeded-Applies,
}

module _ (S : Sqlite) (L : IsSqlite S) where
  record Counted (c : S.Conn) (n : ℕ) (q : S.Stmt) (c' : S.Conn) : Type 0 where
    opened : L.is_null q ≡ false
    one_more : L.live c' ≡ suc (L.live c)
    same_users : L.users c' ≡ L.users c
    same_sessions : L.sessions c' ≡ L.sessions c
    shows : S.column_int q 0 ≡ pos n
    no_error : (S.finalize c' q).0 ≡ sqlite_ok

  counted-Yields :
      {c : S.Conn} {texts : ℕ → Text} {ints : ℕ → ℤ} {q : S.Stmt} {c' : S.Conn}
      → Loaded S L c login_user texts ints q c'
      → Yields S L c (Counted c (count_users (texts 1) (texts 2) (L.users c))) (counted S q) c'
  unfolding counted
  counted-Yields {c} {q = q} {c' = c'} h =
      let (rc, q', c'') = S.step c' q in
      record {
        holds = elim (Bool-cases (rc == sqlite_done || rc == sqlite_row)) [
          | inl good ↦
              let row : rc ≡ sqlite_row = ground (arith, L.step_login c' q h.of_query h.is_fresh) in
              rw good (record {
                opened = ground (arith, h.opened, L.step_keeps c' q);
                one_more = ground (arith, h.one_more, L.step_keeps c' q);
                same_users = ground (arith, h.same_users, L.step_keeps c' q);
                same_sessions =
                    ground (arith, h.same_sessions, L.step_login c' q h.of_query h.is_fresh);
                shows = ground (
                  arith,
                  (L.step_login c' q h.of_query h.is_fresh).2 row,
                  h.text_args 1,
                  h.text_args 2,
                  h.same_users,
                );
                no_error = L.finalize_ok c' q (inr row);
              })
          | inr bad ↦ rw bad (
              ground (
                arith,
                h.opened,
                h.one_more,
                h.same_users,
                h.same_sessions,
                L.step_keeps c' q,
                L.step_login c' q h.of_query h.is_fresh,
                L.finalize_keeps c'' q',
                L.finalize_closes c'' q',
              ))
        ];
      }

  one_match-Yields :
      {c : S.Conn} {n : ℕ} {q : S.Stmt} {c' : S.Conn}
      → Counted c n q c'
      → Yields S L c (Executed S L c (n ≡ 1) (L.sessions c)) (one_match S q) c'
  unfolding one_match
  one_match-Yields {c} {n} {q} {c'} h = record {
    holds = rw h.shows (elim (Bool-cases (n == 1)) [
      | inl one ↦ rw one (record {
        opened = h.opened;
        one_more = h.one_more;
        same_users = h.same_users;
        written = h.same_sessions;
        known = ground arith;
        no_error = h.no_error;
      })
      | inr other ↦ rw other (
          ground (
            arith,
            h.opened,
            h.one_more,
            h.same_users,
            h.same_sessions,
            L.finalize_keeps c' q,
            L.finalize_closes c' q,
          ))
    ]);
  }

  -- `login_query` writes nothing, and returns true only for a user name that stands once in USERS
  -- with the digest of the password.
  pub login_query-Applies :
      (hash_of : Text → Text) (username password : Text) (c : S.Conn)
      → Applies S L c
          (count_users (c_str username) (c_str (hash_of password)) (L.users c) ≡ 1)
          (L.sessions c)
          (login_query S hash_of username password c)
  unfolding login_query
  login_query-Applies hash_of username password c = succeeded-Applies S L (
      bind-Yields S L (prepared-Yields S L login_user c) λ q c1 h1.
        bind-Yields S L (bound_text-Yields S L 1 username h1) λ q c2 h2.
          bind-Yields S L (bound_text-Yields S L 2 (hash_of password) h2) λ q c3 h3.
            bind-Yields S L (counted-Yields h3)
              λ q c4 h4. bind-Yields S L (one_match-Yields h4) λ q c5 h5. finalized-Yields S L q h5)
