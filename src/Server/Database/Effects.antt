-- ===== src/Server/Database/Effects.antt =====
-- What the writing methods of server/Database_API.cpp leave in the tables, on every branch.
use pds_progetto.Base.{Text, false, [], ◌∷◌, ◌++◌, ◌≡◌, arith}
use pds_progetto.Server.Sqlite.{Sqlite}
use pds_progetto.Server.Table.{Row, has_path, without_path, with_hash}
use pds_progetto.Server.Database.{
  insert_row, delete_row, update_row, c_str, type_code, PathType, insert_path, delete_path,
  update_path,
}
use pds_progetto.Server.Database.Semantics.{IsSqlite}
use pds_progetto.Server.Database.Parts.{
  Applies, bind-Yields, prepared-Yields, bound_text-Yields, bound_int-Yields, executed-Yields,
  finalized-Yields, succeeded-Applies,
}

module _ (S : Sqlite) (L : IsSqlite S) where
  abbrev pub new_row : Text → Text → Text → PathType → Row
  new_row path hash user type = record {
    path = c_str path;
    hash = c_str hash;
    user = c_str user;
    dir = type_code type;
  }

  -- `insert_path` returns true exactly when it appended the row of a path that had none.
  pub insert_path-Applies :
      (path hash username : Text) (type : PathType) (c : S.Conn)
      → Applies S L c
          (has_path (c_str path) (L.sessions c) ≡ false)
          (L.sessions c ++ new_row path hash username type ∷ [])
          (insert_path S path hash username type c)
  unfolding insert_path
  insert_path-Applies path hash username type c = succeeded-Applies S L (
      bind-Yields S L (prepared-Yields S L insert_row c) λ q c1 h1.
        bind-Yields S L (bound_text-Yields S L 1 path h1) λ q c2 h2.
          bind-Yields S L (bound_text-Yields S L 2 hash h2) λ q c3 h3.
            bind-Yields S L (bound_text-Yields S L 3 username h3) λ q c4 h4.
              bind-Yields S L (bound_int-Yields S L 4 (type_code type) h4) λ q c5 h5.
                bind-Yields S L
                  (executed-Yields S L _ _ h5 (λ done. rw (← h5.same_sessions) (
                    ground (
                      arith,
                      L.step_insert c5 q h5.of_query done,
                      h5.text_args 1,
                      h5.text_args 2,
                      h5.text_args 3,
                      h5.int_args 4,
                    ))))
                  λ q c6 h6. finalized-Yields S L q h6)

  -- `delete_path` returns true exactly when it removed the row of the path, if there was one.
  pub delete_path-Applies :
      (path : Text) (c : S.Conn)
      → Applies S L c (Unit {0}) (without_path (c_str path) (L.sessions c)) (delete_path S path c)
  unfolding delete_path
  delete_path-Applies path c = succeeded-Applies S L (
      bind-Yields S L (prepared-Yields S L delete_row c) λ q c1 h1.
        bind-Yields S L (bound_text-Yields S L 1 path h1) λ q c2 h2.
          bind-Yields S L
            (executed-Yields S L _ _ h2 (λ done. (
              tt,
              ground (arith, L.step_delete c2 q h2.of_query done, h2.text_args 1, h2.same_sessions),
            )))
            λ q c3 h3. finalized-Yields S L q h3)

  -- `update_path` returns true exactly when it set the hash of the path's row, if there was one.
  pub update_path-Applies :
      (path hash : Text) (c : S.Conn)
      → Applies S L c
          (Unit {0})
          (with_hash (c_str path) (c_str hash) (L.sessions c))
          (update_path S path hash c)
  unfolding update_path
  update_path-Applies path hash c = succeeded-Applies S L (
      bind-Yields S L (prepared-Yields S L update_row c) λ q c1 h1.
        bind-Yields S L (bound_text-Yields S L 1 hash h1) λ q c2 h2.
          bind-Yields S L (bound_text-Yields S L 2 path h2) λ q c3 h3.
            bind-Yields S L
              (executed-Yields S L _ _ h3 (λ done. (
                tt,
                ground (
                  arith,
                  L.step_update c3 q h3.of_query done,
                  h3.text_args 1,
                  h3.text_args 2,
                  h3.same_sessions,
                ),
              )))
              λ q c4 h4. finalized-Yields S L q h4)
