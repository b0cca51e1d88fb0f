-- ===== src/Server/Database/Schema.antt =====
-- `Database_API::get_path_schema` and `Database_API::get_schema`.
use mathlib.Core.List.{Perm}
use mathlib.Core.List.Perm
use pds_progetto.Base.{
  ℕ, ◌<◌, Text, true, Option, none, some, List, [], ◌∷◌, ◌++◌, ◌≡◌, ◌≢◌, refl, ap, ◌∙◌, ◌⊎◌, inl,
  inr, arith, length,
}
use mathlib.Core.List.{append-nil, append_assoc}
use pds_progetto.Base.{map}
use pds_progetto.Base.{text_eq, sym, subst}
use pds_progetto.Server.Sqlite.{Sqlite}
use pds_progetto.Server.Table.{Row, rows_of}
use pds_progetto.Server.Database.{
  Query, select_paths, select_schema, c_str, sql, strip_user, read_rows, read_all, add_path,
  add_element, get_path_schema, get_schema, bound_text, prepared, ◌>>=◌, Part,
}
use pds_progetto.Server.Database.Semantics.{IsSqlite, IsReliable}
use pds_progetto.Server.Database.Parts.{
  Unchanged, Yields, After, weaken-Yields, bind-Yields, prepared-Yields, bound_text-Yields,
}
use pds_progetto.Server.Database.Rows.{
  listed_path, listed_element, collect, Reads, Adds, Open, selected, read_rows-Reads,
}

module _ (S : Sqlite) (L : IsSqlite S) where
  record Asked (k : Query) (user : Text) (c : S.Conn) (q : S.Stmt) (c' : S.Conn) : Type 0 where
    open_query : Open S L c k q c'
    is_fresh : L.fresh q ≡ true
    of_user : L.text_arg q 1 ≡ c_str user

  query_of : Query → Text → Part S S.Stmt
  query_of k user = ◌>>=◌ S (prepared S (sql k)) (bound_text S 1 user)

  query_of-Asked :
      (k : Query) (user : Text) (c : S.Conn) → Yields S L c (Asked k user c) (query_of k user) c
  unfolding query_of
  query_of-Asked k user c = bind-Yields S L (prepared-Yields S L k c) λ q c1 h1.
      weaken-Yields S L
        (λ q c2 h2. record {
          open_query = record {
            opened = h2.opened;
            of_query = h2.of_query;
            one_more = h2.one_more;
            same_users = h2.same_users;
            same_sessions = h2.same_sessions;
          };
          is_fresh = h2.is_fresh;
          of_user = h2.text_args 1;
        })
        (bound_text-Yields S L 1 user h1)

  prepared_ok :
      (k : Query) (c : S.Conn)
      → IsReliable S L
      → prepared S (sql k) c ≡ (some (S.prepare c (sql k)).1, (S.prepare c (sql k)).2)
  unfolding prepared
  prepared_ok k c sure = rw (sure.prepare_ok c k)

  bound_text_ok :
      (user : Text) (q : S.Stmt) (c : S.Conn)
      → IsReliable S L
      → bound_text S 1 user q c ≡ (some (S.bind_text q 1 (c_str user)).1, c)
  unfolding bound_text
  bound_text_ok user q c sure = rw (sure.bind_text_ok q 1 (c_str user))

  query_of_ok :
      (k : Query) (user : Text) (c : S.Conn) → IsReliable S L → (query_of k user c).0 ≢ none
  unfolding query_of ◌>>=◌
  query_of_ok k user c sure e =
      let p = prepared_ok k c sure in
      let b = bound_text_ok user (S.prepare c (sql k)).1 (S.prepare c (sql k)).2 sure in
      ground (arith, p, b)

  module _ {R : Type 0} {k : Query} (selects : (k ≡ select_paths) ⊎ (k ≡ select_schema))
      (add : S.Stmt → R → R) (take : R → Row → R) (adds : Adds S L k add take) (user : Text) where
    read_all-Reads :
        (fuel : ℕ) (c : S.Conn) (res : R) (o : Option S.Stmt) (c' : S.Conn)
        → After S L c (Asked k user c) (o, c')
        → (IsReliable S L → o ≢ none)
        → length (rows_of (c_str user) (L.sessions c)) < fuel
        → Reads S L c take res
            (rows_of (c_str user) (L.sessions c))
            (read_all S fuel add res (o, c'))
    unfolding read_all
    read_all-Reads fuel c res none c' same sure enough = record {
      read = [];
      left = rows_of (c_str user) (L.sessions c);
      conn = c';
      split = refl;
      result = refl;
      unchanged = same;
      complete = λ r. absurd (sure r refl);
    }
    read_all-Reads fuel c res (some q) c' h sure enough =
        let rows : L.pending q c' ≡ rows_of (c_str user) (L.sessions c) = ground (
          arith,
          L.pending_fresh c' q (selected S L selects add take adds q h.open_query.of_query)
              h.is_fresh,
          h.of_user,
          h.open_query.same_sessions,
        ) in
        subst (λ x. Reads S L c take res x (read_rows S fuel add res q c')) rows
          (read_rows-Reads S L selects add take adds fuel c q c' res h.open_query
            (omega (arith, ap length rows)))

    query-Reads :
        (fuel : ℕ) (c : S.Conn) (res : R)
        → length (rows_of (c_str user) (L.sessions c)) < fuel
        → Reads S L c take res
            (rows_of (c_str user) (L.sessions c))
            (read_all S fuel add res (query_of k user c))
    query-Reads fuel c res enough =
        read_all-Reads fuel c res (query_of k user c).0 (query_of k user c).1
          (query_of-Asked k user c).holds (query_of_ok k user c) enough

  pub get_path_schema-Reads :
      (fuel : ℕ) (user : Text) (c : S.Conn)
      → length (rows_of (c_str user) (L.sessions c)) < fuel
      → Reads S L c listed_path []
          (rows_of (c_str user) (L.sessions c))
          (get_path_schema S fuel user c)
  unfolding get_path_schema add_path query_of
  get_path_schema-Reads fuel user c =
      query-Reads (inl refl) (add_path S) listed_path (λ q res r p cells. rw p) user fuel c []

  pub get_schema-Reads :
      (fuel : ℕ) (user : Text) (c : S.Conn)
      → length (rows_of (c_str user) (L.sessions c)) < fuel
      → Reads S L c listed_element []
          (rows_of (c_str user) (L.sessions c))
          (get_schema S fuel user c)
  unfolding get_schema add_element query_of
  get_schema-Reads fuel user c =
      query-Reads (inr refl) (add_element S) listed_element
        (λ q res r p cells. rw (p, (cells refl).0, (cells refl).1)) user fuel c []

collect-listed_path :
    (rows : List Row) (res : List Text)
    → collect listed_path res rows ≡ res ++ map (λ r. strip_user r.path) rows
collect-listed_path [] res = sym (append-nil res)
collect-listed_path (r ∷ rows) res =
    collect-listed_path rows _ ∙ append_assoc res (strip_user r.path ∷ []) _

module _ (S : Sqlite) (L : IsSqlite S) (sure : IsReliable S L) where
  -- Where no call fails and the fuel exceeds the number of the user's rows, the result is, in some
  -- order, the stored paths of the user without their first component, and the statement is finalized.
  pub get_path_schema_exact :
      (fuel : ℕ) (user : Text) (c : S.Conn)
      → length (rows_of (c_str user) (L.sessions c)) < fuel
      → (paths : List Text) × (c' : S.Conn) × (get_path_schema S fuel user c ≡ some (paths, c'))
        × Perm paths (map (λ r. strip_user r.path) (rows_of (c_str user) (L.sessions c)))
        × Unchanged S L c c'
  get_path_schema_exact fuel user c enough =
      let h = get_path_schema-Reads S L fuel user c enough in
      let all : h.read ≡ rows_of (c_str user) (L.sessions c) =
        sym (h.split ∙ ap (◌++◌ h.read) (h.complete sure) ∙ append-nil h.read) in
      (
        map (λ r. strip_user r.path) (rows_of (c_str user) (L.sessions c)),
        h.conn,
        h.result
            ∙ ap (λ x. some (x, h.conn))
                (ap (collect listed_path []) all ∙ collect-listed_path _ []),
        Perm.refl _,
        h.unchanged,
      )

  -- Where no call fails, the result has an entry for each stored path of the user.
  pub get_schema_exact :
      (fuel : ℕ) (user : Text) (c : S.Conn)
      → length (rows_of (c_str user) (L.sessions c)) < fuel
      → (c' : S.Conn) × (get_schema S fuel user c
          ≡ some (collect listed_element [] (rows_of (c_str user) (L.sessions c)), c'))
        × Unchanged S L c c'
  get_schema_exact fuel user c enough =
      let h = get_schema-Reads S L fuel user c enough in
      let all : h.read ≡ rows_of (c_str user) (L.sessions c) =
        sym (h.split ∙ ap (◌++◌ h.read) (h.complete sure) ∙ append-nil h.read) in
      (
        h.conn,
        h.result ∙ ap (λ x. some (x, h.conn)) (ap (collect listed_element []) all),
        h.unchanged,
      )
