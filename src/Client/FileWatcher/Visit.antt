-- ===== src/Client/FileWatcher/Visit.antt =====
-- `find_created_or_modified` of client/FileWatcher.cpp.
use pds_progetto.Cpp.Effect.{Effect, Ends, pure-Ends, bind-Ends, pure, reads-bind}
use pds_progetto.Cpp.Files.{Files}
use pds_progetto.Comm.Utils.{Sha256, hash}
use pds_progetto.Base.{
  Text, Bool, Option, ◌≡◌, ℕ, some, if◌then◌else◌, same_text, true, arith, text_eq, Bool-cases,
  none, inl, Option-cases, same_text_iff, inr, ap, sym, ◌==◌, ◌∙◌, [], refl, not, false,
}
use pds_progetto.Comm.Message.{ElementStatus, Bytes, created_dir, modified_file, created_file}
use pds_progetto.Base.Int.{ℤ}
use pds_progetto.Client.FileWatcher.Mirror.{
  IsFollowed, Kind, IsDisk, known, directory, regular, on_disk, is_regular, file_hash-hash, is_dir,
  absent, other, IsNamed, IsHonest,
}
use pds_progetto.Client.FileWatcher.{FsElement, FileWatcher, is_old, need_update, new_element}
use pds_progetto.Client.FileWatcher.Scan.{visit_directory, refresh, visit_file, visit}
use pds_progetto.Base.Dict.{lookup, Dict, assign, lookup-assign}
use pds_progetto.Base.Sorted.{member, place_member, member-place_member, lookup-place}
use pds_progetto.Client.FileWatcher.Erase.{Mirrors, acted}
use pds_progetto.Cpp.Result.{ok}

module _ (F : Files) (H : Sha256) {W : Type 0}
    (action : Text → Text → ElementStatus → ℤ → Effect W Bool) (view : W → Text → Option Text)
    (f : IsFollowed action view) (root : Text) (fs : F.State) (inside : Text → Type 0)
    (name : Text → Text) (named : IsNamed F fs root inside name) (kind : Text → Kind)
    (disk : IsDisk F fs kind) where
  -- Between two elements that the iterator visits.
  pub record Good (w : FileWatcher F H) (u : W) : Type 0 where
    pub honest : (p : Text) (e : FsElement F H) → lookup p w.files ≡ some e → IsHonest F H kind p e
    pub directories : (p : Text) → member p w.dirs ≡ true → kind p ≡ directory
    pub mirrors : Mirrors F H action view f root fs inside name named kind disk w u
    pub watched : w.path_to_watch ≡ root

  abbrev pub Visited : Text → FileWatcher F H → FileWatcher F H → W → Type 0
  Visited p w w' u' =
      Good w' u'
      × ((q : Text)
          → known F H w' q ≡ (if same_text p q then on_disk F H (kind p) else known F H w q))

  -- The watcher with a fresh entry of a file.
  fresh-Visited :
      (p : Text) (w : FileWatcher F H) (files : Dict Text (FsElement F H)) (e : FsElement F H)
      (t : ℕ) (c : Bytes) {u u' : W}
      → Good w u
      → kind p ≡ regular t c
      → e.path ≡ p
      → e.hash ≡ hash H c
      → ((q : Text) → lookup q files ≡ (if same_text p q then some e else lookup q w.files))
      → ((q : Text)
          → inside q
          → view u' (name q) ≡ (if same_text p q then some (hash H c) else view u (name q)))
      → Visited p w (record w { files = files }) u'
  fresh-Visited p w files e t c g is_file own fresh entry shown = (
    record {
      honest = λ q e2 found. elim (Bool-cases (same_text p q)) [
        | inl same ↦
            let at_q : p ≡ q = (same_text_iff p q).0 same in
            let entry_here : e2 ≡ e = ground (arith, found, entry q, same) in
            record {
              own_path = ap (λ x. x.path) entry_here ∙ own ∙ at_q;
              time = t;
              content = c;
              is_file = ap kind (sym at_q) ∙ is_file;
              same_hash = λ _. ap (λ x. x.hash) entry_here ∙ fresh;
            }
        | inr apart ↦ g.honest q e2 (ground (arith, found, entry q, apart))
      ];
      directories = g.directories;
      mirrors = λ q i. ground (arith, shown q i, entry q, g.mirrors q i, fresh);
      watched = g.watched;
    },
    λ q. ground (arith, entry q, is_file, fresh),
  )

  visit_directory-Visited :
      (p : Text) (w : FileWatcher F H) {u : W}
      → Good w u
      → inside p
      → kind p ≡ directory
      → Ends
          (λ r u'. (r.0 ≡ true) × Visited p w r.1 u')
          (λ _. ⊥)
          (visit_directory F H action fs p w)
          u
  unfolding visit_directory
  visit_directory-Visited p w {u} g here folder = elim (Bool-cases (member p w.dirs)) [
    | inl old ↦ rw (old) (
        pure-Ends (true, w)
          (refl, (g, λ q. ground (arith, same_text_iff p q, old, folder, untracked))))
    | inr new ↦ rw (new) (
        bind-Ends
          (acted F H action view f root fs inside name named w p [] created_dir g.watched here)
          λ done u' a.
            pure-Ends (done, record w { dirs = place_member p w.dirs })
              (
                a.0,
                (
                  record {
                    honest = g.honest;
                    directories = λ q m. ground (
                      arith,
                      m,
                      member-place_member p q w.dirs,
                      same_text_iff p q,
                      g.directories q,
                      folder,
                    );
                    mirrors = λ q i. ground (
                      arith,
                      a.1 q i,
                      g.mirrors q i,
                      member-place_member p q w.dirs,
                      same_text_iff p q,
                      untracked,
                    );
                    watched = g.watched;
                  },
                  λ q.
                      ground (
                        arith,
                        member-place_member p q w.dirs,
                        same_text_iff p q,
                        folder,
                        untracked,
                      ),
                ),
              ))
  ]
    where
      untracked : lookup p w.files ≡ none
      untracked = elim (Option-cases (lookup p w.files)) [
        | inl missing ↦ missing
        | inr (e, found) ↦
            let file = g.honest p e found in let clash = sym folder ∙ file.is_file in cc
      ]

  need_update_ok :
      (p : Text) (e : FsElement F H) (t : ℕ) (c : Bytes)
      → e.path ≡ p
      → kind p ≡ regular t c
      → need_update F H fs e ≡ ok (not (same_text e.hash (hash H c)), record e { hash = hash H c })
  unfolding need_update
  need_update_ok p e t c own is_file =
      rw (ap (F.open_read fs) own ∙ disk.read_ok p t c is_file) (rw (file_hash-hash F H c) refl)

  -- The entry of a file that was there before.
  refresh-Visited :
      (p : Text) (w : FileWatcher F H) (e : FsElement F H) (t : ℕ) (c : Bytes) {u : W}
      → Good w u
      → inside p
      → kind p ≡ regular t c
      → lookup p w.files ≡ some e
      → Ends
          (λ r u'. (r.0 ≡ true) × Visited p w r.1 u')
          (λ _. ⊥)
          (refresh F H action fs p w (is_old F H t e))
          u
  unfolding refresh is_old
  refresh-Visited p w e t c {u} g here is_file found = elim (Bool-cases (e.last_write_time == t)) [
    | inl same ↦ rw (same) (
        written u e (file.own_path) (unchanged (ground (arith, same)))
          (shown (unchanged (ground (arith, same)))))
    | inr later ↦ rw (later) (
        reads-bind _ _ _
          (need_update_ok p (record e { last_write_time = t }) t c file.own_path is_file)
          (elim (Bool-cases (same_text e.hash (hash H c))) [
            | inl equal ↦ rw (equal) (
                written u new_entry file.own_path refl
                  (shown ((same_text_iff e.hash (hash H c)).0 equal)))
            | inr changed ↦ rw (changed) (
                bind-Ends
                  (acted F H action view f root fs inside name named w p (hash H c) modified_file
                    g.watched here)
                  λ done u' a. rw (a.0) (written u' new_entry file.own_path refl a.1))
          ]))
  ]
    where
      file : IsHonest F H kind p e
      file = g.honest p e found

      new_entry : FsElement F H
      new_entry = record e { last_write_time = t; hash = hash H c }

      unchanged : e.last_write_time ≡ t → e.hash ≡ hash H c
      unchanged at_t =
          let same_kind : regular t c ≡ regular file.time file.content =
            sym is_file ∙ file.is_file in
          let same_time : t ≡ file.time = cc in
          let same_content : c ≡ file.content = cc in
          file.same_hash (at_t ∙ same_time) ∙ ap (hash H) (sym same_content)

      shown :
          e.hash ≡ hash H c
          → (q : Text) → inside q
          → view u (name q) ≡ (if same_text p q then some (hash H c) else view u (name q))
      shown fresh q i = ground (arith, g.mirrors q i, same_text_iff p q, found, fresh)

      written :
          (u' : W) (e2 : FsElement F H)
          → e2.path ≡ p
          → e2.hash ≡ hash H c
          → ((q : Text)
              → inside q
              → view u' (name q) ≡ (if same_text p q then some (hash H c) else view u (name q)))
          → Ends {A = Bool × FileWatcher F H}
              (λ r v. (r.0 ≡ true) × Visited p w r.1 v)
              (λ _. ⊥)
              (pure (true, record w { files = assign p e2 w.files }))
              u'
      written u' e2 own fresh view_shown =
          pure-Ends (true, record w { files = assign p e2 w.files })
            (
              refl,
              fresh-Visited p w (assign p e2 w.files) e2 t c g is_file own fresh
                  (λ q. lookup-assign p q e2 w.files) view_shown,
            )

  visit_file-Visited :
      (p : Text) (w : FileWatcher F H) (t : ℕ) (c : Bytes) {u : W}
      → Good w u
      → inside p
      → kind p ≡ regular t c
      → Ends (λ r u'. (r.0 ≡ true) × Visited p w r.1 u') (λ _. ⊥) (visit_file F H action fs p w) u
  unfolding visit_file new_element
  visit_file-Visited p w t c g here is_file =
      reads-bind _ _ _ (disk.time_ok p t c is_file) (elim (Option-cases (lookup p w.files)) [
        | inl missing ↦ rw (missing) (
            reads-bind _ _ (record { path = p; last_write_time = t; hash = hash H c })
              (rw (disk.read_ok p t c is_file) (rw (file_hash-hash F H c) refl))
              (bind-Ends
                (acted F H action view f root fs inside name named w p (hash H c) created_file
                  g.watched here)
                λ done u' a. pure-Ends _ (
                  a.0,
                  fresh-Visited p w _ (record { path = p; last_write_time = t; hash = hash H c }) t
                      c g is_file refl refl (λ q. lookup-place p q _ w.files missing) a.1,
                )))
        | inr (e, found) ↦ rw (found) (refresh-Visited p w e t c g here is_file found)
      ])

  pub visit-Visited :
      (p : Text) (w : FileWatcher F H) {u : W}
      → Good w u
      → inside p
      → Ends (λ r u'. (r.0 ≡ true) × Visited p w r.1 u') (λ _. ⊥) (visit F H action fs p w) u
  unfolding visit
  visit-Visited p w {u} g here = by_kind (kind p) refl
    where
      no_file : is_regular (kind p) ≡ false → lookup p w.files ≡ none
      no_file not_file = elim (Option-cases (lookup p w.files)) [
        | inl missing ↦ missing
        | inr (e, found) ↦
            let file = g.honest p e found in
            let clash = sym not_file ∙ ap is_regular file.is_file in cc
      ]

      no_dir : is_dir (kind p) ≡ false → member p w.dirs ≡ false
      no_dir not_dir = elim (Bool-cases (member p w.dirs)) [
        | inl there ↦ let clash = sym not_dir ∙ ap is_dir (g.directories p there) in cc
        | inr missing ↦ missing
      ]

      nothing :
          is_regular (kind p) ≡ false
          → is_dir (kind p) ≡ false
          → on_disk F H (kind p) ≡ none
          → Ends (λ r u'. (r.0 ≡ true) × Visited p w r.1 u') (λ _. ⊥) (visit F H action fs p w) u
      nothing not_file not_dir nowhere = reads-bind _ _ _ (disk.regular_ok p) (
          rw (not_file) (
            reads-bind _ _ _ (disk.directory_ok p) (
              rw (not_dir) (
                pure-Ends (true, w)
                  (
                    refl,
                    (
                      g,
                      λ q.
                          ground
                            (arith, same_text_iff p q, nowhere, no_file not_file, no_dir not_dir),
                    ),
                  )))))

      by_kind :
          (k : Kind)
          → kind p ≡ k
          → Ends (λ r u'. (r.0 ≡ true) × Visited p w r.1 u') (λ _. ⊥) (visit F H action fs p w) u
      by_kind absent k = nothing (ap is_regular k) (ap is_dir k) (ap (on_disk F H) k)
      by_kind other k = nothing (ap is_regular k) (ap is_dir k) (ap (on_disk F H) k)
      by_kind directory k = reads-bind _ _ _ (disk.regular_ok p) (
          rw (ap is_regular k) (
            reads-bind _ _ _ (disk.directory_ok p)
              (rw (ap is_dir k) (visit_directory-Visited p w g here k))))
      by_kind (regular t c) k =
          reads-bind _ _ _ (disk.regular_ok p)
            (rw (ap is_regular k) (visit_file-Visited p w t c g here k))
