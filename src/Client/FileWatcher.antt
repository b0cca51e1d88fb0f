-- ===== src/Client/FileWatcher.antt =====
-- client/FSElement.cpp, and client/FileWatcher.cpp without the scan. A look at the files sees the
-- file system in one state `fs`.
pub mod Scan
pub mod Mirror
pub mod Erase
pub mod Visit
pub mod Follow
use pds_progetto.Cpp.Result.{◌>>=◌, Result, ok, throws, runtime_error}
use pds_progetto.Cpp.Files.{Files}
use pds_progetto.Comm.Utils.{Sha256, sha256_file}
use pds_progetto.Base.{
  ℕ, Text, List, Option, Bool, [], ◌∷◌, if◌then◌else◌, not, ◌==◌, same_text, false, some, true, suc,
  length, none, text_eq,
}
use pds_progetto.Base.Dict.{lookup, Dict}
use pds_progetto.Base.Sorted.{place, place_member}
use pds_progetto.Base.Int.{ℤ, pos}
use pds_progetto.Comm.Message.{Bytes}

module _ (F : Files) (H : Sha256) where
  -- `SHA256(path)`. The fuel is one more than the length of the file; `file_hash-hash` shows that it
  -- is enough.
  unfoldable pub file_hash : Option Bytes → Result Text
  unfolding sha256_file
  file_hash none = throws runtime_error
  file_hash (some content) = elim (sha256_file H (suc (length content)) (some content)) [
    | none ↦ throws runtime_error
    | some r ↦ r
  ]

  pub record FsElement : Type 0 where
    pub path : Text
    pub last_write_time : ℕ
    pub hash : Text

  unfoldable pub new_element : Text → ℕ → F.State → Result FsElement
  unfolding file_hash
  new_element path last_write_time fs = do
    hash ← file_hash (F.open_read fs path)
    ok (record { path = path; last_write_time = last_write_time; hash = hash })

  -- `isOld`.
  unfoldable pub is_old : ℕ → FsElement → Bool × FsElement
  is_old lwt e =
      if e.last_write_time == lwt then (false, e) else (true, record e { last_write_time = lwt })

  -- `needUpdate`.
  unfoldable pub need_update : F.State → FsElement → Result (Bool × FsElement)
  unfolding file_hash
  need_update fs e = do
    hash ← file_hash (F.open_read fs e.path)
    ok (not (same_text e.hash hash), record e { hash = hash })

  pub record FileWatcher : Type 0 where
    pub path_to_watch : Text
    pub files : Dict Text FsElement
    pub dirs : List Text
    pub fw_cycle : ℤ

  unfoldable pub contains : Text → FileWatcher → Bool
  unfolding lookup
  contains key w = elim (lookup key w.files) [ none ↦ false | some e ↦ true ]

  unfoldable pub parse_path : F.State → Text → FileWatcher → Result Text
  parse_path fs path w = F.relative fs path w.path_to_watch

  -- One element that the directory iterator of `init` visits.
  unfoldable pub init_one : F.State → Text → FileWatcher → Result FileWatcher
  unfolding new_element place place_member
  init_one fs p w = do
    regular ← F.is_regular_file fs p
    elim regular [
      | true ↦ do
        lwt ← F.last_write_time fs p
        file ← new_element p lwt fs
        ok (record w { files = place p file w.files })
      | false ↦ do
        directory ← F.is_directory fs p
        ok (if directory then record w { dirs = place_member p w.dirs } else w)
    ]

  unfoldable pub init_all : F.State → List Text → FileWatcher → Result FileWatcher
  unfolding init_one
  init_all fs [] w = ok w
  init_all fs (p ∷ ps) w = do w' ← init_one fs p w; init_all fs ps w'

  unfoldable pub init : F.State → FileWatcher → Result FileWatcher
  unfolding init_all
  init fs w = do
    paths ← F.walk fs w.path_to_watch
    w' ← init_all fs paths (record w { files = []; dirs = [] })
    ok (record w' { fw_cycle = pos 0 })

  unfoldable pub insert_dirs :
      F.State → FileWatcher → List Text → Dict Text Text → Result (Dict Text Text)
  unfolding parse_path place
  insert_dirs fs w [] d = ok d
  insert_dirs fs w (p ∷ ps) d = do path ← parse_path fs p w; insert_dirs fs w ps (place path [] d)

  unfoldable pub insert_files :
      F.State → FileWatcher → Dict Text FsElement → Dict Text Text → Result (Dict Text Text)
  unfolding parse_path place
  insert_files fs w [] d = ok d
  insert_files fs w ((p, e) ∷ files) d = do
    path ← parse_path fs p w
    insert_files fs w files (place path e.hash d)

  -- The map of relative paths and hashes; a directory has an empty hash.
  unfoldable pub get_elements : F.State → FileWatcher → Result (Dict Text Text)
  unfolding insert_files insert_dirs
  get_elements fs w = do d ← insert_files fs w w.files []; insert_dirs fs w w.dirs d
