-- ===== src/Examples/Watcher.antt =====
-- The file watcher at concrete inputs.
use pds_progetto.Examples.Disk.{disk, kind_in, disk-IsDisk, keep_all}
use pds_progetto.Base.Equality.{same_text}
use pds_progetto.Cpp.Effect.{Effect}
use pds_progetto.Base.{
  Text, if◌then◌else◌, Option, codes, Bool, ◌∷◌, refl, true, [], ◌≡◌, some, text_eq, false, none,
  Bool-cases, inl, subst, same_text_iff, inr, arith,
}
use pds_progetto.Client.FileWatcher.Mirror.{
  IsFollowed, Kind, known, regular, directory, is_there, on_disk, IsNamed,
}
use pds_progetto.Base.Dict.{Dict, lookup}
use pds_progetto.Client.FileWatcher.{FsElement, FileWatcher}
use pds_progetto.Comm.Message.{ElementStatus}
use pds_progetto.Base.Int.{ℤ, pos}
use pds_progetto.Comm.Changes.{left_by}
use pds_progetto.Cpp.Result.{ok}
use pds_progetto.Client.FileWatcher.Scan.{watch_cycle}
use pds_progetto.Client.FileWatcher.Erase.{Mirrors}
use pds_progetto.Base.Sorted.{member}
use pds_progetto.Client.FileWatcher.Follow.{watch_cycle-follows}

-- The world that the action changes is what the server shows.
abbrev recorded : Text → Text → ElementStatus → ℤ → Effect (Text → Option Text) Bool
recorded path hash status n u =
    (ok true, λ q. if same_text path q then left_by status hash (u q) else u q)

abbrev recorded-IsFollowed : IsFollowed recorded (λ u. u)
recorded-IsFollowed = record {
  next = λ path hash status n u q. if same_text path q then left_by status hash (u q) else u q;
  succeeds = λ path hash status n u. refl;
  shows = λ path hash status n u q. refl;
}

-- A new file and a new directory; the file `gone` that the watcher knows does not exist.
abbrev changed_disk : Dict Text Kind
changed_disk = (codes "new", regular 7 (codes "text")) ∷ (codes "sub", directory) ∷ []

abbrev gone : FsElement disk keep_all
gone = record { path = codes "gone"; last_write_time = 3; hash = codes "ab" }

abbrev one_watched : FileWatcher disk keep_all
one_watched = record {
  path_to_watch = codes "root";
  files = (codes "gone", gone) ∷ [];
  dirs = [];
  fw_cycle = pos 0;
}

abbrev shown_before : Text → Option Text
shown_before q = known disk keep_all one_watched q

absent_files :
    (p : Text) (e : FsElement disk keep_all)
    → lookup p one_watched.files ≡ some e
    → is_there (kind_in changed_disk p) ≡ true
    → ⊥
unfolding lookup same_text
absent_files p e found there = elim (Bool-cases (same_text (codes "gone") p)) [
  | inl same ↦
      subst (λ q. is_there (kind_in changed_disk q) ≡ true → ⊥)
        ((same_text_iff (codes "gone") p).0 same) (λ h. cc) there
  | inr other ↦ ground (arith, other, found)
]

no_directory : (p : Text) → member p one_watched.dirs ≡ true → ⊥
unfolding member
no_directory p listed = cc

same_names : IsNamed disk changed_disk (codes "root") (λ p. Unit {0}) (λ p. p)
same_names = record { relative_ok = λ p near. refl; injective = λ p q here there e. e }

watch_cycle-follows_example :
    (w' : FileWatcher disk keep_all) × (u' : Text → Option Text) × (watch_cycle disk keep_all
        recorded changed_disk one_watched shown_before
      ≡ (ok (true, w'), u'))
    × Mirrors disk keep_all recorded
        (λ u. u)
        recorded-IsFollowed
        (codes "root")
        changed_disk
        (λ p. Unit {0})
        (λ p. p)
        same_names
        (kind_in changed_disk)
        (disk-IsDisk changed_disk)
        w'
        u'
    × ((q : Text)
        → member q (codes "new" ∷ codes "sub" ∷ []) ≡ true
        → u' q ≡ on_disk disk keep_all (kind_in changed_disk q))
    × ((q : Text) → Unit {0} → is_there (kind_in changed_disk q) ≡ false → u' q ≡ none)
watch_cycle-follows_example =
    watch_cycle-follows disk keep_all recorded (λ u. u) recorded-IsFollowed (codes "root")
      changed_disk (λ p. Unit {0}) (λ p. p) same_names (kind_in changed_disk)
      (disk-IsDisk changed_disk) one_watched shown_before (codes "new" ∷ codes "sub" ∷ []) refl refl
      (tt, (tt, tt)) (tt, tt) tt (λ p e found there. absurd (absent_files p e found there))
      (λ p listed there. absurd (no_directory p listed)) (λ p near. refl)
