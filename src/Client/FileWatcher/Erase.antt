-- ===== src/Client/FileWatcher/Erase.antt =====
-- `find_erased` of client/FileWatcher.cpp.
use pds_progetto.Cpp.Effect.{Effect, Ends, pure-Ends, bind-Ends, reads-bind, weaken-Ends}
use pds_progetto.Cpp.Files.{Files}
use pds_progetto.Comm.Utils.{Sha256}
use pds_progetto.Base.{
  Text, Bool, Option, ◌≡◌, true, if◌then◌else◌, same_text, none, some, text_eq, Bool-cases, refl,
  inl, same_text_iff, same_text_refl, inr, arith, ◌∷◌, [], List, ◌&&◌, not, All, ap, ◌∙◌,
}
use pds_progetto.Comm.Message.{ElementStatus, erased_file, erased_dir}
use pds_progetto.Base.Int.{ℤ}
use pds_progetto.Client.FileWatcher.Mirror.{IsFollowed, Kind, IsDisk, is_there, known, IsNamed}
use pds_progetto.Client.FileWatcher.{parse_path, FileWatcher, FsElement}
use pds_progetto.Base.Dict.{Dict, lookup}
use pds_progetto.Client.FileWatcher.Scan.{erase_files, erase_dirs, find_erased, report}
use pds_progetto.Base.Sorted.{member}
use pds_progetto.Comm.Changes.{left_by}

module _ (F : Files) (H : Sha256) {W : Type 0}
    (action : Text → Text → ElementStatus → ℤ → Effect W Bool) (view : W → Text → Option Text)
    (f : IsFollowed action view) (root : Text) (fs : F.State) (inside : Text → Type 0)
    (name : Text → Text) (named : IsNamed F fs root inside name) where
  same_name : (p q : Text) → inside p → inside q → same_text (name p) (name q) ≡ same_text p q
  same_name p q here there = elim (Bool-cases (same_text p q)) [
    | inl same ↦ rw (same) (rw ((same_text_iff p q).0 same) (same_text_refl (name q)))
    | inr apart ↦ ground (
      arith,
      apart,
      same_text_iff p q,
      same_text_iff (name p) (name q),
      named.injective p q here there,
    )
  ]

  -- The action is called for a path: the view changes under its relative path only.
  pub acted :
      (w : FileWatcher F H) (p h : Text) (st : ElementStatus) {u : W}
      → w.path_to_watch ≡ root
      → inside p
      → Ends
          (λ done u'.
            (done ≡ true)
            × ((q : Text)
                → inside q
                → view u' (name q)
                  ≡ (if same_text p q then left_by st h (view u (name q)) else view u (name q))))
          (λ _. ⊥)
          (report F H action fs p h st w)
          u
  unfolding report parse_path
  acted w p h st {u} watched here =
      reads-bind _ _ (name p) (ap (F.relative fs p) watched ∙ named.relative_ok p here) (record {
        holds = rw (f.succeeds (name p) h st w.fw_cycle u) (
          refl,
          λ q there.
              rw (f.shows (name p) h st w.fw_cycle u (name q)) (rw (same_name p q here there) refl),
        );
      })

  module _ (kind : Text → Kind) (disk : IsDisk F fs kind) where
    -- What the loop over the files leaves of a path.
    abbrev after_files : Dict Text (FsElement F H) → W → Text → Option Text
    after_files files u p =
        if is_there (kind p)
        then view u (name p)
        else elim (lookup p files) [ none ↦ view u (name p) | some e ↦ none ]

    record FilesErased (files : Dict Text (FsElement F H)) (u : W)
        (left : Dict Text (FsElement F H)) (u' : W) : Type 0 where
      kept : (p : Text) → lookup p left ≡ (if is_there (kind p) then lookup p files else none)
      shown : (p : Text) → inside p → view u' (name p) ≡ after_files files u p

    erase_files-FilesErased :
        (w : FileWatcher F H) (files : Dict Text (FsElement F H)) {u : W}
        → w.path_to_watch ≡ root
        → All (λ x. inside x.0) files
        → Ends
            (λ r u'. (r.0 ≡ true) × FilesErased files u r.1 u')
            (λ _. ⊥)
            (erase_files F H action fs w files)
            u
    unfolding erase_files lookup
    erase_files-FilesErased w [] watched near =
        pure-Ends (true, [])
          (refl, record { kept = λ p. ground arith; shown = λ p i. ground arith })
    erase_files-FilesErased w ((q, e) ∷ files) {u} watched near =
        reads-bind _ _ _ (disk.exists_ok q) (elim (Bool-cases (is_there (kind q))) [
          | inl here ↦ rw (here) (
              bind-Ends (erase_files-FilesErased w files watched near.1) λ r u' h.
                pure-Ends (r.0, (q, e) ∷ r.1)
                  (
                    h.0,
                    record {
                      kept = λ p. ground (arith, h.1.kept p, same_text_iff q p, here);
                      shown = λ p i. ground (arith, h.1.shown p i, same_text_iff q p, here);
                    },
                  ))
          | inr gone ↦ rw (gone) (
              bind-Ends (acted w q e.hash erased_file watched near.0) λ done u1 a. rw (a.0) (
                weaken-Ends (erase_files-FilesErased w files watched near.1) λ r u' h. (
                  h.0,
                  record {
                    kept = λ p. ground (arith, h.1.kept p, same_text_iff q p, gone);
                    shown = λ p i. ground (arith, h.1.shown p i, a.1 p i, same_text_iff q p, gone);
                  },
                )))
        ])

    record DirsErased (dirs : List Text) (u : W) (left : List Text) (u' : W) : Type 0 where
      kept : (p : Text) → member p left ≡ (is_there (kind p) && member p dirs)
      shown :
          (p : Text)
          → inside p
          → view u' (name p)
            ≡ (if not (is_there (kind p)) && member p dirs then none else view u (name p))

    erase_dirs-DirsErased :
        (w : FileWatcher F H) (dirs : List Text) {u : W}
        → w.path_to_watch ≡ root
        → All inside dirs
        → Ends
            (λ r u'. (r.0 ≡ true) × DirsErased dirs u r.1 u')
            (λ _. ⊥)
            (erase_dirs F H action fs w dirs)
            u
    unfolding erase_dirs member
    erase_dirs-DirsErased w [] watched near =
        pure-Ends (true, [])
          (refl, record { kept = λ p. ground arith; shown = λ p i. ground arith })
    erase_dirs-DirsErased w (q ∷ dirs) watched near =
        bind-Ends (erase_dirs-DirsErased w dirs watched near.1) λ r u1 h. rw (h.0) (
          reads-bind _ _ _ (disk.exists_ok q) (elim (Bool-cases (is_there (kind q))) [
            | inl here ↦ rw (here) (
                pure-Ends (true, q ∷ r.1)
                  (
                    refl,
                    record {
                      kept = λ p. ground (arith, h.1.kept p, same_text_iff q p, here);
                      shown = λ p i. ground (arith, h.1.shown p i, same_text_iff q p, here);
                    },
                  ))
            | inr gone ↦ rw (gone) (
                bind-Ends (acted w q [] erased_dir watched near.0) λ done u2 a. rw (a.0) (
                  pure-Ends (true, r.1)
                    (
                      refl,
                      record {
                        kept = λ p. ground (arith, h.1.kept p, same_text_iff q p, gone);
                        shown =
                            λ p i. ground (arith, h.1.shown p i, a.1 p i, same_text_iff q p, gone);
                      },
                    )))
          ]))

    -- The view shows what the watcher knows.
    abbrev pub Mirrors : FileWatcher F H → W → Type 0
    Mirrors w u = (p : Text) → inside p → view u (name p) ≡ known F H w p

    -- `find_erased` goes on to the end, forgets exactly what is gone, and the view follows.
    pub record Erased (w w' : FileWatcher F H) (u' : W) : Type 0 where
      pub files_kept :
          (p : Text) → lookup p w'.files ≡ (if is_there (kind p) then lookup p w.files else none)
      pub dirs_kept : (p : Text) → member p w'.dirs ≡ (is_there (kind p) && member p w.dirs)
      pub mirrors : Mirrors w' u'
      pub watched : w'.path_to_watch ≡ root

    pub find_erased-Erased :
        (w : FileWatcher F H) {u : W}
        → w.path_to_watch ≡ root
        → All (λ x. inside x.0) w.files
        → All inside w.dirs
        → Mirrors w u
        → Ends (λ r u'. (r.0 ≡ true) × Erased w r.1 u') (λ _. ⊥) (find_erased F H action fs w) u
    unfolding find_erased
    find_erased-Erased w watched near_files near_dirs mirror =
        bind-Ends (erase_files-FilesErased w w.files watched near_files) λ r u1 h. rw (h.0) (
          bind-Ends (erase_dirs-DirsErased w w.dirs watched near_dirs) λ s u2 k.
            pure-Ends (s.0, record w { files = r.1; dirs = s.1 })
              (
                k.0,
                record {
                  files_kept = h.1.kept;
                  dirs_kept = k.1.kept;
                  mirrors = λ p i.
                      ground
                        (arith, k.1.shown p i, k.1.kept p, h.1.shown p i, h.1.kept p, mirror p i);
                  watched = watched;
                },
              ))
