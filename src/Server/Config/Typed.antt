-- ===== src/Server/Config/Typed.antt =====
-- `write_config` of server/ServerConfigSetting.cpp when every question is answered at once.
use pds_progetto.Base.{refl, Text, ◌++◌, ℕ, ◌∷◌, is_empty, ◌≡◌, false, suc, true, some, ◌≤◌, []}
use pds_progetto.Cpp.Dialog.{pure, modify, after-ok, within-ok}
use pds_progetto.Console.{Console, ask_port}
use pds_progetto.Server.Config.{written, read_config, config_file, ServerConfigSetting}
use pds_progetto.Server.Config.RoundTrip.{read_config-written_server, IsWritable}
use pds_progetto.Cpp.Files.{Files, PathText, IsReadBack, IsStored}
use pds_progetto.Server.Config.Setup.{write_config}
use pds_progetto.Cpp.Stream.{opened_on}
use pds_progetto.Cpp.Stream.Laws.{IsLine}
use pds_progetto.Cpp.Numbers.{to_string}
use pds_progetto.Console.Ports.{IsLog10, ask_port-IsPort_line}
use pds_progetto.Console.Paths.{typing, ask_dir-line, ask_path-line}
use pds_progetto.Base.Int.{pos}
use pds_progetto.Cpp.Result.{ok}

-- The answers, each on a line.
abbrev pub answers : ServerConfigSetting → Text → Text
answers c rest =
    to_string c.port
    ++ (b'\n' ∷ (c.dir_path ++ (b'\n' ∷ (c.logs_path ++ (b'\n' ∷ (c.db_path ++ b'\n' ∷ rest))))))

-- What the questions ask of the answers, with the old settings and the file system.
pub record IsAccepted (F : Files) (files : F.State) (old c : ServerConfigSetting) : Type 0 where
  pub number : ℕ
  pub port_is : c.port ≡ pos number
  pub port_low : 1000 ≤ number
  pub port_high : number ≤ 9999
  pub dir_line : IsLine c.dir_path
  pub dir_full : is_empty c.dir_path ≡ false
  pub dir_there : F.exists files c.dir_path ≡ ok true
  pub dir_directory : F.is_directory files c.dir_path ≡ ok true
  pub logs_line : IsLine c.logs_path
  pub logs_full : is_empty c.logs_path ≡ false
  pub old_logs_file : F.is_directory files old.logs_path ≡ ok false
  pub db_line : IsLine c.db_path
  pub db_full : is_empty c.db_path ≡ false
  pub old_db_file : F.is_directory files old.db_path ≡ ok false

module _ (F : Files) (P : PathText) (log10 : ℕ → ℕ) where
  abbrev stored : ServerConfigSetting → Text → Console F → Console F
  stored c rest s = record {
    cin = opened_on rest;
    files = F.open_write s.files config_file (written P c);
  }

  write_config-answers :
      (fuel : ℕ) (old c : ServerConfigSetting) (rest : Text) (s : Console F)
      → IsLog10 log10
      → IsAccepted F s.files old c
      → write_config F P log10 (suc fuel) old (typing F (answers c rest) s)
        ≡ some (ok c, stored c rest s)
  unfolding write_config pure modify
  write_config-answers fuel old c rest s law h =
      let db_text = c.db_path ++ b'\n' ∷ rest in
      let logs_text = c.logs_path ++ b'\n' ∷ db_text in
      let dir_text = c.dir_path ++ b'\n' ∷ logs_text in
      let first : ask_port log10 (suc fuel) old.port [] (opened_on (answers c rest))
          ≡ some (ok c.port, opened_on dir_text) =
        (let line =
            ask_port-IsPort_line log10 fuel h.number dir_text old.port [] law h.port_low
              h.port_high in
          rw (h.port_is) line) in
      let second =
        ask_dir-line F fuel old.dir_path [] c.dir_path logs_text s h.dir_line h.dir_full h.dir_there
          h.dir_directory in
      let third =
        ask_path-line F fuel old.logs_path [] c.logs_path db_text s h.logs_line h.logs_full
          h.old_logs_file in
      let fourth =
        ask_path-line F fuel old.db_path [] c.db_path rest s h.db_line h.db_full h.old_db_file in
      after-ok _ _ _ (within-ok _ _ _ _ first) (
        after-ok _ _ _ second
          (after-ok _ _ _ third (after-ok _ _ _ fourth (after-ok _ _ _ refl refl))))

  -- If each question is answered at once by a line that it accepts, `write_config` returns the answers
  -- as the settings; and if their text could be written to the file, `read_config` on the files
  -- afterwards gives them back, whatever the settings were before. The settings can be read back:
  -- the paths of the logs and of the
  -- database are words (not empty, without a space), the path of the folder is written
  -- on one line, and no line holds a keyword that `read_config` looks for before that of the line.
  -- The library reads a path back as it wrote it, and the integer logarithm counts digits.
  pub write_config-read_config_server :
      (fuel : ℕ) (old other c : ServerConfigSetting) (rest : Text) (s : Console F)
      → IsLog10 log10
      → IsReadBack P
      → IsStored F s.files config_file (written P c)
      → IsAccepted F s.files old c
      → IsWritable P c
      → (s' : Console F) × ((write_config F P log10 (suc fuel) old (typing F (answers c rest) s)
            ≡ some (ok c, s'))
          × (read_config P F s'.files other ≡ c))
  write_config-read_config_server fuel old other c rest s law back kept accepted writable = (
    stored c rest s,
    (
      write_config-answers fuel old c rest s law accepted,
      read_config-written_server P back F (stored c rest s).files other c kept writable,
    ),
  )
