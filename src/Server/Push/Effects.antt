-- ===== src/Server/Push/Effects.antt =====
-- What `Server::push` leaves on every exit: the session is released, and the rows of the database
-- have the change if the answer is true and are unchanged otherwise.
use pds_progetto.Cpp.Files.{Files}
use pds_progetto.Server.Sqlite.{Sqlite}
use pds_progetto.Server.Database.Semantics.{IsSqlite}
use pds_progetto.Comm.Message.{
  ElementStatus, created_file, created_dir, modified_file, erased_file, erased_dir, Bytes,
  unnamed_status,
}
use pds_progetto.Base.{
  Bool, Text, List, ◌≡◌, ◌++◌, true, Option, some, none, false, ◌∷◌, [], ap, refl, if◌then◌else◌,
}
use pds_progetto.Server.Session.{
  Session, create_file, modify_file, remove_file, create_dir, remove_dir,
}
use pds_progetto.Server.Push.{
  push, ServerState, on_db, checked, release, on_files, set_active, apply_change, write_on_file,
  attempt, finish, create_dirs,
}
use pds_progetto.Cpp.Effect.{
  Effect, Ends, pure-Ends, on-Ends, all-Outcome, bind-Ends, modify-Ends, ◌>>◌, pure, ◌>>=◌,
  when-Ends, catching-Ends, Ends-returns,
}
use pds_progetto.Server.Table.{Row, has_path, with_hash, without_path}
use pds_progetto.Cpp.Result.{ok}
use pds_progetto.Server.Database.Parts.{Applies, Unchanged}
use pds_progetto.Server.Database.Effects.{
  new_row, insert_path-Applies, update_path-Applies, delete_path-Applies,
}
use pds_progetto.Server.Database.{c_str, file, dir}

module _ (F : Files) (S : Sqlite) (L : IsSqlite S) where
  -- The rows after the change of the path `virt`.
  abbrev pub changed_rows : ElementStatus → Text → Text → Text → List Row → List Row
  changed_rows created_file virt hash user rows = rows ++ new_row S L virt hash user file ∷ []
  changed_rows modified_file virt hash user rows = with_hash (c_str virt) (c_str hash) rows
  changed_rows erased_file virt hash user rows = without_path (c_str virt) rows
  changed_rows created_dir virt hash user rows = rows ++ new_row S L virt hash user dir ∷ []
  changed_rows erased_dir virt hash user rows = without_path (c_str virt) rows
  changed_rows (unnamed_status _) virt hash user rows = rows

  -- What a true answer says of the rows before.
  abbrev pub Needed : ElementStatus → Text → List Row → Type 0
  Needed created_file virt rows = has_path (c_str virt) rows ≡ false
  Needed created_dir virt rows = has_path (c_str virt) rows ≡ false
  Needed (unnamed_status _) virt rows = ⊥
  Needed _ virt rows = Unit

  abbrev active : Bool → Session → Session
  active b session = record session { active_thread = b }

  module _ (session : Session) (db : S.Conn) where
    -- Before the call of the database.
    record Ready (s : ServerState F S) : Type 0 where
      held : s.session ≡ active true session
      same_db : s.db ≡ db

    -- After it, with its result.
    record Asked (fact : Type 0) (rows : List Row) (done : Bool) (s : ServerState F S)
        : Type 0 where
      held : s.session ≡ active true session
      applied : Applies S L db fact rows (done, s.db)

    -- After a failure: the session is released.
    record Released (s : ServerState F S) : Type 0 where
      freed : s.session ≡ active false session
      undone : Unchanged S L db s.db

    -- After a case of the `switch`.
    Left : Type 0 → List Row → Option Bool → ServerState F S → Type 0
    Left fact rows none s = Asked fact rows true s
    Left fact rows (some b) s = (b ≡ false) × Released s

    on_files-Ready :
        {A : Type 0} (m : Effect F.State A) {s : ServerState F S}
        → Ready s
        → Ends (λ _ u. Ready u) Ready (on_files F S m) s
    on_files-Ready m {s = s} r =
        on-Ends (λ u. u.files) (λ f u. record u { files = f }) m
          (all-Outcome (λ f. Ready (record s { files = f })) (m s.files)
            λ f. record { held = r.held; same_db = r.same_db })

    on_files-Asked :
        {fact : Type 0} {rows : List Row} (m : Effect F.State (Unit {0})) {s : ServerState F S}
        → ((f : F.State) → (f' : F.State) × m f ≡ (ok tt, f'))
        → Asked fact rows true s
        → Ends (λ _ u. Asked fact rows true u) Ready (on_files F S m) s
    on_files-Asked {fact} {rows} m {s = s} total r =
        on-Ends (λ u. u.files) (λ f u. record u { files = f }) m
          (rw ((total s.files).1) (record { held = r.held; applied = r.applied }))

    on_db-Asked :
        (fact : Type 0) (rows : List Row) (m : Session → S.Conn → Bool × S.Conn)
        {s : ServerState F S}
        → Ready s
        → Applies S L db fact rows (m (active true session) db)
        → Ends (Asked fact rows) Ready (on_db F S m) s
    unfolding on_db
    on_db-Asked fact rows m {s = s} r h = record {
      holds = record { held = r.held; applied = rw (r.held, r.same_db) h };
    }

    checked-Left :
        (fact : Type 0) (rows : List Row) (done : Bool) {s : ServerState F S}
        → Asked fact rows done s
        → Ends (Left fact rows) Ready (checked F S done) s
    unfolding checked release Left
    checked-Left fact rows true a = pure-Ends none a
    checked-Left fact rows false {s = s} a =
        bind-Ends
          (modify-Ends {P = λ _ u. Released u} (set_active F S false) (record {
            freed = ap (active false) a.held;
            undone = (a.applied.0, a.applied.1, a.applied.2);
          }))
          λ _ u h. pure-Ends (some false) (refl, h)

    give_up-Left :
        (fact : Type 0) (rows : List Row) (Thrown : ServerState F S → Type 0) {s : ServerState F S}
        → Ready s
        → Ends (Left fact rows) Thrown (do release F S; pure (some false)) s
    unfolding release Left
    give_up-Left fact rows Thrown {s = s} r =
        bind-Ends
          (modify-Ends {P = λ _ u. Released u} (set_active F S false) (record {
            freed = ap (active false) r.held;
            undone = rw (r.same_db) (refl, refl, refl);
          }))
          λ _ u h. pure-Ends (some false) (refl, h)

    -- A case of the `switch` whose work on the files comes first.
    files_first :
        (fact : Type 0) (rows : List Row) (m : Effect F.State (Unit {0}))
        (d : Session → S.Conn → Bool × S.Conn) {s : ServerState F S}
        → Ready s
        → Applies S L db fact rows (d (active true session) db)
        → Ends (Left fact rows) Ready (do on_files F S m; done ← on_db F S d; checked F S done) s
    files_first fact rows m d r h =
        bind-Ends (on_files-Ready m r) λ _ u ru.
          bind-Ends (on_db-Asked fact rows d ru h) λ done v a. checked-Left fact rows done a

    modified_first :
        (rows : List Row) (m : Effect F.State (Unit {0})) (done : Bool) {s : ServerState F S}
        → ((f : F.State) → (f' : F.State) × m f ≡ (ok tt, f'))
        → Asked Unit rows done s
        → Ends
            (Left Unit rows)
            Ready
            (if done then (do on_files F S m; pure none) else checked F S false)
            s
    unfolding Left
    modified_first rows m true total a =
        bind-Ends (on_files-Asked m total a) λ _ u h. pure-Ends none h
    modified_first rows m false total a = checked-Left Unit rows false a

    apply_change-Left :
        (status : ElementStatus) (disk virt : Text) (bytes : Bytes) (hash : Text)
        {s : ServerState F S}
        → Ready s
        → Ends
            (Left
              (Needed status virt (L.sessions db))
              (changed_rows status virt hash session.user (L.sessions db)))
            Ready
            (apply_change F S status disk virt bytes hash)
            s
    unfolding apply_change create_file modify_file remove_file create_dir remove_dir write_on_file
    apply_change-Left created_file disk virt bytes hash r =
        files_first _ _ _ _ r (insert_path-Applies S L virt hash session.user file db)
    apply_change-Left modified_file disk virt bytes hash r =
        bind-Ends (on_db-Asked Unit _ _ r (update_path-Applies S L virt hash db)) λ done u a.
          modified_first _ (write_on_file F S disk bytes) done
            (λ f. (F.open_write f disk bytes, refl)) a
    apply_change-Left erased_file disk virt bytes hash r =
        files_first _ _ _ _ r (delete_path-Applies S L virt db)
    apply_change-Left created_dir disk virt bytes hash r =
        files_first _ _ _ _ r (insert_path-Applies S L virt hash session.user dir db)
    apply_change-Left erased_dir disk virt bytes hash r =
        files_first _ _ _ _ r (delete_path-Applies S L virt db)
    apply_change-Left (unnamed_status n) disk virt bytes hash r = give_up-Left _ _ Ready r

    attempt-Left :
        (root path : Text) (bytes : Bytes) (hash : Text) (status : ElementStatus)
        {s : ServerState F S}
        → Ready s
        → Ends
            (Left
              (Needed status (F.append session.user path) (L.sessions db))
              (changed_rows status (F.append session.user path) hash session.user (L.sessions db)))
            Ready
            (attempt F S root session.user path bytes hash status)
            s
    unfolding attempt
    attempt-Left root path bytes hash status r =
        bind-Ends
          (when-Ends {P = λ _ u. Ready u}
            (λ _. on_files-Ready (create_dirs F S (F.append root session.user) path) r) (λ _. r))
          λ _ u ru. apply_change-Left status _ (F.append session.user path) bytes hash ru

    -- What the function promises of its answer.
    Promised : Type 0 → List Row → Bool → ServerState F S → Type 0
    Promised fact rows done s =
        (s.session ≡ active false session) × Applies S L db fact rows (done, s.db)

    finish-Promised :
        (fact : Type 0) (rows : List Row) (r : Option Bool) {s : ServerState F S}
        → Left fact rows r s
        → Ends (Promised fact rows) (λ _. ⊥) (finish F S r) s
    unfolding finish release Left Promised
    finish-Promised fact rows none h =
        bind-Ends
          (modify-Ends {P = λ _ u. Promised fact rows true u} (set_active F S false)
            (ap (active false) h.held, h.applied))
          λ _ u p. pure-Ends true p
    finish-Promised fact rows (some b) (refused, h) =
        pure-Ends b (h.freed, rw (refused) (h.undone.0, h.undone.1, h.undone.2, λ e. cc))

  push_lem :
      (root path : Text) (bytes : Bytes) (hash : Text) (status : ElementStatus)
      (s : ServerState F S)
      → Ends
          (Promised s.session s.db
            (Needed status (F.append s.session.user path) (L.sessions s.db))
            (changed_rows status
              (F.append s.session.user path)
              hash
              s.session.user
              (L.sessions s.db)))
          (λ _. ⊥)
          (push F S root path bytes hash status)
          s
  unfolding push
  push_lem root path bytes hash status s = record {
    holds =
        (bind-Ends
          (modify-Ends {P = λ _ u. Ready s.session s.db u} (set_active F S true)
            (record { held = refl; same_db = refl }))
          λ _ u r.
            bind-Ends
              (catching-Ends (attempt-Left s.session s.db root path bytes hash status r)
                λ v rv. give_up-Left s.session s.db _ _ (λ _. ⊥) rv)
              λ o v left. finish-Promised s.session s.db _ _ o left).holds;
  }

  -- `push` returns on every branch, an exception of the file system included. Afterwards the session
  -- is what it was with `active_thread_` off, and the database has no more open statements. If the
  -- answer is true, the status has a name, the rows are those before with the change of the path,
  -- and a created path had no row; otherwise the rows are unchanged.
  pub push-Applies :
      (root path : Text) (bytes : Bytes) (hash : Text) (status : ElementStatus)
      (s : ServerState F S)
      → (done : Bool) × (s' : ServerState F S) × (push F S root path bytes hash status s
          ≡ (ok done, s'))
        × (s'.session ≡ record (s.session) { active_thread = false })
        × Applies S L s.db
            (Needed status (F.append s.session.user path) (L.sessions s.db))
            (changed_rows status
              (F.append s.session.user path)
              hash
              s.session.user
              (L.sessions s.db))
            (done, s'.db)
  unfolding Promised
  push-Applies root path bytes hash status s =
      let (done, s', e, p) = Ends-returns (push_lem root path bytes hash status s) in
      (done, s', e, p.0, p.1)
