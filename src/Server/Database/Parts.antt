-- ===== src/Server/Database/Parts.antt =====
-- The steps that the methods of server/Database_API.cpp share: each one undoes the opening of the
-- statement where it returns early.
use pds_progetto.Base.{
  Bool-cases, ℕ, suc, Text, Bool, true, false, Option, none, some, List, ◌≡◌, inl, inr, ◌==◌,
  if◌then◌else◌, arith,
}
use pds_progetto.Base.Int.{ℤ}
use pds_progetto.Server.Sqlite.{Sqlite, sqlite_ok, sqlite_done}
use pds_progetto.Server.Table.{Row}
use pds_progetto.Server.Database.{
  Query, sql, Part, ◌>>=◌, succeeded, executed, finalized, c_str, prepared, bound_text, bound_int,
}
use pds_progetto.Server.Database.Semantics.{IsSqlite}

abbrev pub put {ℓ} : {A : Type ℓ} → ℕ → A → (ℕ → A) → ℕ → A
put i a f j = if i == j then a else f j

module _ (S : Sqlite) (L : IsSqlite S) where
  abbrev pub Unchanged : S.Conn → S.Conn → Type 0
  Unchanged c c' =
      (L.live c' ≡ L.live c) × (L.users c' ≡ L.users c) × (L.sessions c' ≡ L.sessions c)

  -- Since the method began at `c`, the statement `q` of query `k` was opened and its arguments
  -- were bound.
  pub record Loaded (c : S.Conn) (k : Query) (texts : ℕ → Text) (ints : ℕ → ℤ) (q : S.Stmt)
      (c' : S.Conn) : Type 0 where
    pub opened : L.is_null q ≡ false
    pub of_query : L.query q ≡ k
    pub is_fresh : L.fresh q ≡ true
    pub one_more : L.live c' ≡ suc (L.live c)
    pub same_users : L.users c' ≡ L.users c
    pub same_sessions : L.sessions c' ≡ L.sessions c
    pub text_args : (j : ℕ) → L.text_arg q j ≡ texts j
    pub int_args : (j : ℕ) → L.int_arg q j ≡ ints j

  abbrev pub After : {A : Type 0} → S.Conn → (A → S.Conn → Type 0) → Option A × S.Conn → Type 0
  After c P (none, c') = Unchanged c c'
  After c P (some a, c') = P a c'

  -- A part of the method that began at `c`, run at `c'`: either it returns early and has undone
  -- the opening, or `P` holds of its result and the connection.
  pub record Yields {A : Type 0} (c : S.Conn) (P : A → S.Conn → Type 0) (m : Part S A) (c' : S.Conn)
      : Type 0 where
    pub holds : After c P (m c')

  bind-After :
      {A B : Type 0} (c : S.Conn) (P : A → S.Conn → Type 0) (Q : B → S.Conn → Type 0)
      (f : A → Part S B) (o : Option A) (c' : S.Conn)
      → After c P (o, c')
      → ((a : A) (c'' : S.Conn) → P a c'' → Yields c Q (f a) c'')
      → After c Q (elim o [ none ↦ (none, c') | some a ↦ f a c' ])
  bind-After c P Q f none c' h k = h
  bind-After c P Q f (some a) c' h k = (k a c' h).holds

  pub bind-Yields :
      {A B : Type 0} {c : S.Conn} {P : A → S.Conn → Type 0} {Q : B → S.Conn → Type 0} {m : Part S A}
      {f : A → Part S B} {c' : S.Conn}
      → Yields c P m c'
      → ((a : A) (c'' : S.Conn) → P a c'' → Yields c Q (f a) c'')
      → Yields c Q (◌>>=◌ S m f) c'
  unfolding ◌>>=◌
  bind-Yields {c = c} {P = P} {Q = Q} {m = m} {f = f} {c' = c'} h k = record {
    holds = bind-After c P Q f (m c').0 (m c').1 h.holds k;
  }

  weaken-After :
      {A : Type 0} (c : S.Conn) (P Q : A → S.Conn → Type 0) (o : Option A) (c' : S.Conn)
      → ((a : A) (c'' : S.Conn) → P a c'' → Q a c'')
      → After c P (o, c')
      → After c Q (o, c')
  weaken-After c P Q none c' k h = h
  weaken-After c P Q (some a) c' k h = k a c' h

  pub weaken-Yields :
      {A : Type 0} {c : S.Conn} {P Q : A → S.Conn → Type 0} {m : Part S A} {c' : S.Conn}
      → ((a : A) (c'' : S.Conn) → P a c'' → Q a c'')
      → Yields c P m c'
      → Yields c Q m c'
  weaken-Yields {c = c} {P = P} {Q = Q} {m = m} {c' = c'} k h = record {
    holds = weaken-After c P Q (m c').0 (m c').1 k h.holds;
  }

  pub prepared-Yields :
      (k : Query) (c : S.Conn)
      → Yields c (λ q c'. Loaded c k (L.text_arg q) (L.int_arg q) q c') (prepared S (sql k)) c
  unfolding prepared
  prepared-Yields k c =
      let (rc, q, c') = S.prepare c (sql k) in
      ground (
        arith,
        L.prepare_keeps c k,
        L.prepare_opens c k,
        L.prepare_fails c k,
        L.finalize_keeps c' q,
        L.finalize_null c' q,
      )

  pub bound_text-Yields :
      {c : S.Conn} {k : Query} {texts : ℕ → Text} {ints : ℕ → ℤ} {q : S.Stmt} {c' : S.Conn} (i : ℕ)
      (t : Text)
      → Loaded c k texts ints q c'
      → Yields c (Loaded c k (put i (c_str t) texts) ints) (bound_text S i t q) c'
  unfolding bound_text
  bound_text-Yields {c} {k} {texts} {ints} {q} {c'} i t h = record {
    holds = elim (Bool-cases ((S.bind_text q i (c_str t)).0 == sqlite_ok)) [
      | inl good ↦ rw good (loaded (ground arith))
      | inr bad ↦ rw bad (
          ground (
            arith,
            h,
            L.bind_text_keeps q i (c_str t),
            L.finalize_keeps c' q',
            L.finalize_closes c' q',
          ))
    ];
  }
    where
      q' : S.Stmt
      q' = (S.bind_text q i (c_str t)).1

      loaded :
          (S.bind_text q i (c_str t)).0 ≡ sqlite_ok → Loaded c k (put i (c_str t) texts) ints q' c'
      loaded good = record {
        opened = ground (arith, h, L.bind_text_keeps q i (c_str t));
        of_query = ground (arith, h, L.bind_text_keeps q i (c_str t));
        is_fresh = ground (arith, h, L.bind_text_keeps q i (c_str t));
        one_more = h.one_more;
        same_users = h.same_users;
        same_sessions = h.same_sessions;
        text_args = λ j. ground (arith, L.bind_text_sets q i (c_str t) j good, h.text_args j);
        int_args = λ j. ground (arith, L.bind_text_sets q i (c_str t) j good, h.int_args j);
      }

  pub bound_int-Yields :
      {c : S.Conn} {k : Query} {texts : ℕ → Text} {ints : ℕ → ℤ} {q : S.Stmt} {c' : S.Conn} (i : ℕ)
      (n : ℤ)
      → Loaded c k texts ints q c'
      → Yields c (Loaded c k texts (put i n ints)) (bound_int S i n q) c'
  unfolding bound_int
  bound_int-Yields {c} {k} {texts} {ints} {q} {c'} i n h = record {
    holds = elim (Bool-cases ((S.bind_int q i n).0 == sqlite_ok)) [
      | inl good ↦ rw good (loaded (ground arith))
      | inr bad ↦ rw bad (
          ground
            (arith, h, L.bind_int_keeps q i n, L.finalize_keeps c' q', L.finalize_closes c' q'))
    ];
  }
    where
      q' : S.Stmt
      q' = (S.bind_int q i n).1

      loaded : (S.bind_int q i n).0 ≡ sqlite_ok → Loaded c k texts (put i n ints) q' c'
      loaded good = record {
        opened = ground (arith, h, L.bind_int_keeps q i n);
        of_query = ground (arith, h, L.bind_int_keeps q i n);
        is_fresh = ground (arith, h, L.bind_int_keeps q i n);
        one_more = h.one_more;
        same_users = h.same_users;
        same_sessions = h.same_sessions;
        text_args = λ j. ground (arith, L.bind_int_sets q i n j good, h.text_args j);
        int_args = λ j. ground (arith, L.bind_int_sets q i n j good, h.int_args j);
      }

  -- The statement ran to its end and left `rows` in SESSIONS.
  pub record Executed (c : S.Conn) (fact : Type 0) (rows : List Row) (q : S.Stmt) (c' : S.Conn)
      : Type 0 where
    pub opened : L.is_null q ≡ false
    pub one_more : L.live c' ≡ suc (L.live c)
    pub same_users : L.users c' ≡ L.users c
    pub written : L.sessions c' ≡ rows
    pub known : fact
    pub no_error : (S.finalize c' q).0 ≡ sqlite_ok

  -- A method that returns true has turned SESSIONS into `rows`, and `fact` holds; one that returns
  -- false has changed nothing. Neither changes USERS or leaves a statement open.
  abbrev pub Applies : S.Conn → Type 0 → List Row → Bool × S.Conn → Type 0
  Applies c fact rows (ok, c') =
      (L.live c' ≡ L.live c)
      × (L.users c' ≡ L.users c)
      × (L.sessions c' ≡ (if ok then rows else L.sessions c))
      × (ok ≡ true → fact)

  abbrev pub Closed : S.Conn → Type 0 → List Row → Unit {0} → S.Conn → Type 0
  Closed c fact rows _ c' = Applies c fact rows (true, c')

  pub executed-Yields :
      {c : S.Conn} {k : Query} {texts : ℕ → Text} {ints : ℕ → ℤ} {q : S.Stmt} {c' : S.Conn}
      (fact : Type 0) (rows : List Row)
      → Loaded c k texts ints q c'
      → ((S.step c' q).0 ≡ sqlite_done → fact × (L.sessions (S.step c' q).2 ≡ rows))
      → Yields c (Executed c fact rows) (executed S q) c'
  unfolding executed
  executed-Yields {c} {q = q} {c' = c'} fact rows h written =
      let (rc, q', c'') = S.step c' q in
      record {
        holds = elim (Bool-cases (rc == sqlite_done)) [
          | inl good ↦
              let done : rc ≡ sqlite_done = ground arith in
              rw good (record {
                opened = ground (arith, h, L.step_keeps c' q);
                one_more = ground (arith, h, L.step_keeps c' q);
                same_users = ground (arith, h, L.step_keeps c' q);
                written = (written done).1;
                known = (written done).0;
                no_error = L.finalize_ok c' q (inl done);
              })
          | inr bad ↦ rw bad (
              ground (
                arith,
                h,
                L.step_keeps c' q,
                L.step_unfinished c' q,
                L.finalize_keeps c'' q',
                L.finalize_closes c'' q',
              ))
        ];
      }

  pub finalized-Yields :
      {c : S.Conn} {fact : Type 0} {rows : List Row} (q : S.Stmt) {c' : S.Conn}
      → Executed c fact rows q c'
      → Yields c (Closed c fact rows) (finalized S q) c'
  unfolding finalized
  finalized-Yields q {c'} h = record {
    holds = rw h.no_error (
      ground (arith, h.one_more, h.opened, L.finalize_keeps c' q, L.finalize_closes c' q),
      ground (arith, h.same_users, L.finalize_keeps c' q),
      ground (arith, h.written, L.finalize_keeps c' q),
      λ _. h.known,
    );
  }

  succeeded-After :
      (c : S.Conn) (fact : Type 0) (rows : List Row) (o : Option (Unit {0})) (c' : S.Conn)
      → After c (Closed c fact rows) (o, c')
      → Applies c fact rows (succeeded S (o, c'))
  succeeded-After c fact rows none c' h = (h.0, h.1, h.2, λ e. cc)
  succeeded-After c fact rows (some u) c' h = h

  pub succeeded-Applies :
      {c : S.Conn} {fact : Type 0} {rows : List Row} {m : Part S (Unit {0})}
      → Yields c (Closed c fact rows) m c
      → Applies c fact rows (succeeded S (m c))
  succeeded-Applies {c} {fact} {rows} {m} h = succeeded-After c fact rows (m c).0 (m c).1 h.holds
