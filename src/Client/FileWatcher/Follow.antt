-- ===== src/Client/FileWatcher/Follow.antt =====
-- A whole scan of client/FileWatcher.cpp.
use pds_progetto.Cpp.Effect.{
  Effect, Ends, pure-Ends, bind-Ends, weaken-Ends, reads-bind, Ends-returns,
}
use pds_progetto.Cpp.Files.{Files}
use pds_progetto.Comm.Utils.{Sha256}
use pds_progetto.Base.{
  Text, Bool, Option, ◌≡◌, List, true, if◌then◌else◌, some, ◌∷◌, none, arith, same_text_iff, [], ap,
  refl, ◌∙◌, text_eq, false, Bool-cases, inl, inr, All, same_text, subst,
}
use pds_progetto.Comm.Message.{ElementStatus}
use pds_progetto.Base.Int.{ℤ}
use pds_progetto.Client.FileWatcher.Mirror.{
  IsFollowed, Kind, IsDisk, known, on_disk, is_there, directory, regular, absent, other, IsNamed,
  IsHonest,
}
use pds_progetto.Client.FileWatcher.{FileWatcher, FsElement}
use pds_progetto.Client.FileWatcher.Scan.{visit_all, find_created_or_modified, watch_cycle}
use pds_progetto.Client.FileWatcher.Visit.{Good, visit-Visited}
use pds_progetto.Base.Sorted.{member}
use pds_progetto.Cpp.Result.{ok}
use pds_progetto.Base.Dict.{lookup}
use pds_progetto.Client.FileWatcher.Erase.{Mirrors, Erased, find_erased-Erased}

module _ (F : Files) (H : Sha256) {W : Type 0}
    (action : Text → Text → ElementStatus → ℤ → Effect W Bool) (view : W → Text → Option Text)
    (f : IsFollowed action view) (root : Text) (fs : F.State) (inside : Text → Type 0)
    (name : Text → Text) (named : IsNamed F fs root inside name) (kind : Text → Kind)
    (disk : IsDisk F fs kind) where
  abbrev Known : (Text → Option Text) → FileWatcher F H → W → Type 0
  Known expected w u =
      Good F H action view f root fs inside name named kind disk w u
      × ((q : Text) → known F H w q ≡ expected q)

  All-member : (P : Text → Type 0) (q : Text) (xs : List Text) → All P xs → member q xs ≡ true → P q
  unfolding member
  All-member P q [] h m = cc
  All-member P q (x ∷ xs) h m = elim (Bool-cases (same_text x q)) [
    | inl same ↦ subst P ((same_text_iff x q).0 same) h.0
    | inr apart ↦ All-member P q xs h.1 (ground (arith, apart, m))
  ]

  gone-on_disk : (k : Kind) → is_there k ≡ false → on_disk F H k ≡ none
  gone-on_disk absent h = refl
  gone-on_disk directory h = cc
  gone-on_disk other h = refl
  gone-on_disk (regular t c) h = cc

  visit_all-Known :
      (paths : List Text) (w : FileWatcher F H) {u : W}
      → Good F H action view f root fs inside name named kind disk w u
      → All inside paths
      → Ends {A = Bool × FileWatcher F H}
          (λ r u'.
            (r.0 ≡ true)
            × Known (λ q. if member q paths then on_disk F H (kind q) else known F H w q) r.1 u')
          (λ _. ⊥)
          (visit_all F H action fs paths w)
          u
  unfolding visit_all member
  visit_all-Known [] w g near = pure-Ends (true, w) (refl, (g, λ q. refl))
  visit_all-Known (p ∷ ps) w g near =
      bind-Ends (visit-Visited F H action view f root fs inside name named kind disk p w g near.0)
        λ r u1 h. rw (h.0) (
          weaken-Ends (visit_all-Known ps r.1 h.1.0 near.1)
            λ s u2 k. (k.0, (k.1.0, λ q. ground (arith, k.1.1 q, h.1.1 q, same_text_iff p q))))

  watch_cycle-Known :
      (w : FileWatcher F H) (u : W) (paths : List Text)
      → w.path_to_watch ≡ root
      → F.walk fs root ≡ ok paths
      → All inside paths
      → All (λ x. inside x.0) w.files
      → All inside w.dirs
      → ((p : Text) (e : FsElement F H)
          → lookup p w.files ≡ some e
          → is_there (kind p) ≡ true
          → IsHonest F H kind p e)
      → ((p : Text) → member p w.dirs ≡ true → is_there (kind p) ≡ true → kind p ≡ directory)
      → Mirrors F H action view f root fs inside name named kind disk w u
      → Ends {A = Bool × FileWatcher F H}
          (λ r u'.
            (r.0 ≡ true)
            × Known
                (λ q.
                  if member q paths
                  then on_disk F H (kind q)
                  else if is_there (kind q)
                  then known F H w q
                  else none)
                r.1
                u')
          (λ _. ⊥)
          (watch_cycle F H action fs w)
          u
  unfolding watch_cycle find_created_or_modified
  watch_cycle-Known w u paths watched walked near near_files near_dirs honest folders mirror =
      bind-Ends
        (find_erased-Erased F H action view f root fs inside name named kind disk w watched
          near_files near_dirs mirror)
        λ r u1 h. rw (h.0) (
          bind-Ends
            (reads-bind _ _ paths (ap (F.walk fs) h.1.watched ∙ walked)
              (visit_all-Known paths r.1 (after_erase r.1 u1 h.1) near))
            λ s u2 k. rw (k.0) (
              pure-Ends _ (
                refl,
                (
                  record {
                    honest = k.1.0.honest;
                    directories = k.1.0.directories;
                    mirrors = k.1.0.mirrors;
                    watched = k.1.0.watched;
                  },
                  λ q. ground (arith, k.1.1 q, h.1.files_kept q, h.1.dirs_kept q),
                ),
              )))
    where
      after_erase :
          (w' : FileWatcher F H) (u' : W)
          → Erased F H action view f root fs inside name named kind disk w w' u'
          → Good F H action view f root fs inside name named kind disk w' u'
      after_erase w' u' e = record {
        honest = λ p x found.
            honest p x (ground (arith, e.files_kept p, found))
              (ground (arith, e.files_kept p, found));
        directories =
            λ p m. folders p (ground (arith, e.dirs_kept p, m)) (ground (arith, e.dirs_kept p, m));
        mirrors = e.mirrors;
        watched = e.watched;
      }

  -- One cycle of `start` over a state of the file system in which no call fails, with an action that
  -- succeeds and whose changes show in the view. The paths that the iterator visits and the paths that
  -- the watcher knows have relative paths, which differ; the watcher's entries that still exist are of
  -- the kind they were, and a file that was not written since it was looked at has its old hash; the
  -- view shows what the watcher knows. Then the cycle goes on to its end without an exception, the
  -- view shows what the watcher now knows, and both show what stands at every path that the iterator
  -- visits, and nothing at every such path where nothing stands.
  pub watch_cycle-follows :
      (w : FileWatcher F H) (u : W) (paths : List Text)
      → w.path_to_watch ≡ root
      → F.walk fs root ≡ ok paths
      → All inside paths
      → All (λ x. inside x.0) w.files
      → All inside w.dirs
      → ((p : Text) (e : FsElement F H)
          → lookup p w.files ≡ some e
          → is_there (kind p) ≡ true
          → IsHonest F H kind p e)
      → ((p : Text) → member p w.dirs ≡ true → is_there (kind p) ≡ true → kind p ≡ directory)
      → Mirrors F H action view f root fs inside name named kind disk w u
      → (w' : FileWatcher F H) × (u' : W) × (watch_cycle F H action fs w u ≡ (ok (true, w'), u'))
        × Mirrors F H action view f root fs inside name named kind disk w' u'
        × ((q : Text) → member q paths ≡ true → view u' (name q) ≡ on_disk F H (kind q))
        × ((q : Text) → inside q → is_there (kind q) ≡ false → view u' (name q) ≡ none)
  watch_cycle-follows w u paths watched walked near near_files near_dirs honest folders mirror =
      let (r, u', returned, (going, (good, shown))) = Ends-returns (
        watch_cycle-Known w u paths watched walked near near_files near_dirs honest folders
          mirror) in
      (
        r.1,
        u',
        returned ∙ ap (λ b. (ok (b, r.1), u')) going,
        good.mirrors,
        λ q m. good.mirrors q (All-member inside q paths near m) ∙ shown q ∙ rw (m) refl,
        λ q i gone. good.mirrors q i ∙ shown q ∙ elim (Bool-cases (member q paths)) [
          | inl listed ↦ rw (listed) (gone-on_disk (kind q) gone)
          | inr unlisted ↦ rw (unlisted, gone) refl
        ],
      )
