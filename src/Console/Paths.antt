-- ===== src/Console/Paths.antt =====
-- The questions for the folder and for the paths of files in client/ConfigSetting.cpp and
-- server/ServerConfigSetting.cpp, answered at once.
use pds_progetto.Cpp.Dialog.{◌>>=◌, pure, within, ends}
use pds_progetto.Base.{Text, ℕ, is_empty, ◌≡◌, false, true, suc, ◌++◌, ◌∷◌, some}
use pds_progetto.Cpp.Files.{Files}
use pds_progetto.Console.{ask_dir, ask_path, Console, next_line}
use pds_progetto.Cpp.Stream.{opened_on}
use pds_progetto.Cpp.Stream.Laws.{IsLine, getline-line}
use pds_progetto.Cpp.Result.{ok}

module _ (F : Files) where
  -- The state with the rest of the input.
  abbrev pub typing : Text → Console F → Console F
  typing text s = record s { cin = opened_on text }

  -- A folder that is there is taken.
  pub ask_dir-line :
      (fuel : ℕ) (dir_path old line rest : Text) (s : Console F)
      → IsLine line
      → is_empty line ≡ false
      → F.exists s.files line ≡ ok true
      → F.is_directory s.files line ≡ ok true
      → ask_dir F (suc fuel) dir_path old (typing (line ++ b'\n' ∷ rest) s)
        ≡ some (ok line, typing rest s)
  unfolding ask_dir next_line within ends ◌>>=◌ pure
  ask_dir-line fuel dir_path old line rest s one typed there directory =
      let read = getline-line old line rest one in
      simp (ask_dir, next_line, ◌>>=◌, within, ends, pure, read, typed, there, directory)

  -- A path is taken if the path that was offered is no folder.
  pub ask_path-line :
      (fuel : ℕ) (path old line rest : Text) (s : Console F)
      → IsLine line
      → is_empty line ≡ false
      → F.is_directory s.files path ≡ ok false
      → ask_path F (suc fuel) path old (typing (line ++ b'\n' ∷ rest) s)
        ≡ some (ok line, typing rest s)
  unfolding ask_path next_line within ends ◌>>=◌ pure
  ask_path-line fuel path old line rest s one typed directory =
      let read = getline-line old line rest one in
      simp (ask_path, next_line, ◌>>=◌, within, ends, pure, read, typed, directory)
