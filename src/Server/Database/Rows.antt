-- ===== src/Server/Database/Rows.antt =====
-- The loop over the rows of a query in server/Database_API.cpp.
use pds_progetto.Base.{
  ℕ, zero, suc, ◌<◌, Text, false, Option, some, List, [], ◌∷◌, ◌++◌, ◌≡◌, refl, ap, ◌∙◌, ◌⊎◌, inl,
  inr, ◌==◌, arith, Bool-cases, length, if◌then◌else◌,
}
use pds_progetto.Base.Int.{pos, ◌==ℤ◌}
use pds_progetto.Base.{text_eq, sym, subst}
use pds_progetto.Base.Dict.{Dict, insert}
use pds_progetto.Server.Sqlite.{Sqlite, sqlite_row}
use pds_progetto.Server.Table.{Row}
use pds_progetto.Server.Database.{Query, select_paths, select_schema, strip_user, read_rows}
use pds_progetto.Server.Database.Semantics.{IsSqlite, IsReliable}
use pds_progetto.Server.Database.Parts.{Unchanged}

-- What a row contributes to the two results.
abbrev pub listed_path : List Text → Row → List Text
listed_path res r = res ++ strip_user r.path ∷ []

abbrev pub listed_element : Dict Text Text → Row → Dict Text Text
listed_element res r = insert (strip_user r.path) (if r.dir ==ℤ pos 0 then r.hash else []) res

abbrev pub collect {ℓ} : {R : Type ℓ} → (R → Row → R) → R → List Row → R
collect take res [] = res
collect take res (r ∷ rows) = collect take (take res r) rows

module _ (S : Sqlite) (L : IsSqlite S) where
  -- The rows that a query read before it ended, and those that it left.
  pub record Reads {R : Type 0} (c : S.Conn) (take : R → Row → R) (res : R) (rows : List Row)
      (o : Option (R × S.Conn)) : Type 0 where
    pub read : List Row
    pub left : List Row
    pub conn : S.Conn
    pub split : rows ≡ read ++ left
    pub result : o ≡ some (collect take res read, conn)
    pub unchanged : Unchanged S L c conn
    pub complete : IsReliable S L → left ≡ []

  -- A row of the query shows in the columns that `add` reads.
  abbrev pub Adds : {R : Type 0} → Query → (S.Stmt → R → R) → (R → Row → R) → Type 0
  Adds {R} k add take =
      (q : S.Stmt) (res : R) (r : Row)
      → S.column_text q 0 ≡ r.path
      → (k ≡ select_schema → (S.column_text q 1 ≡ r.hash) × (S.column_int q 2 ≡ r.dir))
      → add q res ≡ take res r

  pub record Open (c : S.Conn) (k : Query) (q : S.Stmt) (c' : S.Conn) : Type 0 where
    pub opened : L.is_null q ≡ false
    pub of_query : L.query q ≡ k
    pub one_more : L.live c' ≡ suc (L.live c)
    pub same_users : L.users c' ≡ L.users c
    pub same_sessions : L.sessions c' ≡ L.sessions c

  module _ {R : Type 0} {k : Query} (selects : (k ≡ select_paths) ⊎ (k ≡ select_schema))
      (add : S.Stmt → R → R) (take : R → Row → R) (adds : Adds k add take) where
    pub selected :
        (q : S.Stmt) → L.query q ≡ k → (L.query q ≡ select_paths) ⊎ (L.query q ≡ select_schema)
    selected q e = subst (λ j. (j ≡ select_paths) ⊎ (j ≡ select_schema)) (sym e) selects

    Open-step :
        (c : S.Conn) (q : S.Stmt) (c' : S.Conn)
        → Open c k q c'
        → Open c k (S.step c' q).1 (S.step c' q).2
    Open-step c q c' h = record {
      opened = ground (arith, h.opened, L.step_keeps c' q);
      of_query = ground (arith, h.of_query, L.step_keeps c' q);
      one_more = ground (arith, h.one_more, L.step_keeps c' q);
      same_users = ground (arith, h.same_users, L.step_keeps c' q);
      same_sessions = ground (arith, h.same_sessions, L.step_select c' q (selected q h.of_query));
    }

    Reads-cons :
        {c : S.Conn} {res : R} {r : Row} {rows : List Row} {o : Option (R × S.Conn)}
        → Reads c take (take res r) rows o
        → Reads c take res (r ∷ rows) o
    Reads-cons {r = r} h = record {
      read = r ∷ h.read;
      left = h.left;
      conn = h.conn;
      split = ap (◌∷◌ r) h.split;
      result = h.result;
      unchanged = h.unchanged;
      complete = h.complete;
    }

    pub read_rows-Reads :
        (fuel : ℕ) (c : S.Conn) (q : S.Stmt) (c' : S.Conn) (res : R)
        → Open c k q c'
        → length (L.pending q c') < fuel
        → Reads c take res (L.pending q c') (read_rows S fuel add res q c')
    unfolding read_rows
    read_rows-Reads zero c q c' res h enough = absurd (omega arith)
    read_rows-Reads (suc fuel) c q c' res h enough =
        let (rc, q', c'') = S.step c' q in
        elim (Bool-cases (rc == sqlite_row)) [
          | inl row ↦
              let (r, more, path, cells) = L.step_row c' q (selected q h.of_query) (ground arith) in
              let rest =
                read_rows-Reads fuel c q' c'' (take res r) (Open-step c q c' h)
                  (omega (arith, ap length more)) in
              rw (row, more, adds q' res r path (λ e. cells (h.of_query ∙ e))) (Reads-cons rest)
          | inr over ↦ rw over (record {
            read = [];
            left = L.pending q c';
            conn = (S.finalize c'' q').1;
            split = refl;
            result = refl;
            unchanged =
                ground
                  (arith, Open-step c q c' h, L.finalize_keeps c'' q', L.finalize_closes c'' q');
            complete = λ sure. ground (
              arith,
              sure.step_ok c' q (selected q h.of_query),
              L.step_select c' q (selected q h.of_query),
            );
          })
        ]
