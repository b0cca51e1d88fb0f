-- ===== src/Client/FileWatcher/Mirror.antt =====
-- What the watcher of client/FileWatcher.cpp is to do: the world that its action changes shows, under
-- the relative path of each element, what the watcher knows of it.
use pds_progetto.Base.{
  ℕ, Bool, Text, false, true, ◌≡◌, Option, some, none, [], if◌then◌else◌, same_text, suc, text_eq,
  length, arith, refl,
}
use pds_progetto.Cpp.Files.{Files}
use pds_progetto.Comm.Message.{ElementStatus, Bytes}
use pds_progetto.Base.Int.{ℤ}
use pds_progetto.Comm.Utils.{Sha256, hash}
use pds_progetto.Cpp.Result.{ok}
use pds_progetto.Cpp.Effect.{Effect}
use pds_progetto.Client.FileWatcher.{FsElement, FileWatcher, file_hash}
use pds_progetto.Base.Sorted.{member}
use pds_progetto.Base.Dict.{lookup}
use pds_progetto.Comm.Utils.Digest.{sha256_file-hash}
use pds_progetto.Comm.Changes.{left_by}

-- What stands at a path.
pub data Kind : Type 0 where
  absent directory other : Kind
  regular : ℕ → Bytes → Kind

abbrev pub is_there : Kind → Bool
is_there absent = false
is_there _ = true

abbrev pub is_regular : Kind → Bool
is_regular (regular t c) = true
is_regular _ = false

abbrev pub is_dir : Kind → Bool
is_dir directory = true
is_dir _ = false

-- A state of the file system in which no call fails.
pub record IsDisk (F : Files) (fs : F.State) (kind : Text → Kind) : Type 0 where
  pub exists_ok : (p : Text) → F.exists fs p ≡ ok (is_there (kind p))
  pub regular_ok : (p : Text) → F.is_regular_file fs p ≡ ok (is_regular (kind p))
  pub directory_ok : (p : Text) → F.is_directory fs p ≡ ok (is_dir (kind p))
  pub time_ok :
      (p : Text) (t : ℕ) (c : Bytes) → kind p ≡ regular t c → F.last_write_time fs p ≡ ok t
  pub read_ok : (p : Text) (t : ℕ) (c : Bytes) → kind p ≡ regular t c → F.open_read fs p ≡ some c

-- The paths in `inside`, spelled the way the iterator gives them, have relative paths, which differ.
pub record IsNamed (F : Files) (fs : F.State) (root : Text) (inside : Text → Type 0)
    (name : Text → Text) : Type 0 where
  pub relative_ok : (p : Text) → inside p → F.relative fs p root ≡ ok (name p)
  pub injective : (p q : Text) → inside p → inside q → name p ≡ name q → p ≡ q

-- An action that succeeds and whose changes show in a view of the world.
pub record IsFollowed {W : Type 0} (action : Text → Text → ElementStatus → ℤ → Effect W Bool)
    (view : W → Text → Option Text) : Type 0 where
  pub next : Text → Text → ElementStatus → ℤ → W → W
  pub succeeds :
      (path hash : Text) (st : ElementStatus) (n : ℤ) (u : W)
      → action path hash st n u ≡ (ok true, next path hash st n u)
  pub shows :
      (path hash : Text) (st : ElementStatus) (n : ℤ) (u : W) (q : Text)
      → view (next path hash st n u) q
        ≡ (if same_text path q then left_by st hash (view u q) else view u q)

module _ (F : Files) (H : Sha256) where
  -- The content of the files as a digest, and an empty text for a directory.
  abbrev pub on_disk : Kind → Option Text
  on_disk absent = none
  on_disk other = none
  on_disk directory = some []
  on_disk (regular t c) = some (hash H c)

  abbrev pub or_dir : Bool → Option (FsElement F H) → Option Text
  or_dir dir (some e) = some (e.hash)
  or_dir true none = some []
  or_dir false none = none

  -- What the watcher knows of a path.
  abbrev pub known : FileWatcher F H → Text → Option Text
  known w p = or_dir (member p w.dirs) (lookup p w.files)

  -- A tracked file is a regular file; if it was not written since the watcher looked at it, its hash
  -- is still right.
  pub record IsHonest (kind : Text → Kind) (p : Text) (e : FsElement F H) : Type 0 where
    pub own_path : e.path ≡ p
    pub time : ℕ
    pub content : Bytes
    pub is_file : kind p ≡ regular time content
    pub same_hash : e.last_write_time ≡ time → e.hash ≡ hash H content

  pub file_hash-hash : (c : Bytes) → file_hash F H (some c) ≡ ok (hash H c)
  unfolding file_hash
  file_hash-hash c = rw (sha256_file-hash H (suc (length c)) c (omega arith), file_hash) refl
