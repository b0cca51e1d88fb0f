-- ===== src/Server/Config.antt =====
-- server/ServerConfigSetting.h and server/ServerConfigSetting.cpp. The boxes and questions on the
-- screen are left out; `std::cin` is a stream.
pub mod RoundTrip
pub mod Setup
pub mod Typed
use pds_progetto.Cpp.Find.{contains, after_first, read_int}
use pds_progetto.Base.{
  ◌++◌, Text, codes, List, String, Bool, if◌then◌else◌, ◌∷◌, none, some, [], false, true,
}
use pds_progetto.Cpp.Files.{PathText, Files}
use pds_progetto.Cpp.Numbers.{to_string}
use pds_progetto.Base.Int.{ℤ, pos}
use pds_progetto.Cpp.Stream.{read_word, lines_of, as_lines, opened_on}

pub record ServerConfigSetting : Type 0 where
  pub dir_path : Text
  pub port : ℤ
  pub logs_path : Text
  pub db_path : Text

-- The initializers of the members.
abbrev pub default_settings : ServerConfigSetting
default_settings = record {
  dir_path = codes "./server_files";
  port = pos 8080;
  logs_path = codes ".server_logs.txt";
  db_path = codes "../database/remote_backup.db";
}

abbrev pub config_file : Text
config_file = codes ".server_config.txt"

module _ (P : PathText) where
  -- The body of the loop of `read_config`.
  unfoldable pub read_line : ServerConfigSetting → Text → ServerConfigSetting
  unfolding contains after_first read_int read_word
  read_line c line =
      let sin = after_first b'=' line in
      if contains (codes "port") line
      then record c { port = read_int c.port sin }
      else if contains (codes "path") line
      then record c { dir_path = P.extract c.dir_path sin }
      else if contains (codes "logs") line
      then record c { logs_path = (read_word c.logs_path (opened_on sin)).0 }
      else if contains (codes "db") line
      then record c { db_path = (read_word c.db_path (opened_on sin)).0 }
      else c

  unfoldable pub read_lines : ServerConfigSetting → List Text → ServerConfigSetting
  unfolding read_line
  read_lines c [] = c
  read_lines c (line ∷ lines) = read_lines (read_line c line) lines

  unfoldable pub read_config : (F : Files) → F.State → ServerConfigSetting → ServerConfigSetting
  unfolding read_lines lines_of
  read_config F files c = elim (F.open_read files config_file) [
    | none ↦ c
    | some content ↦ read_lines c (lines_of content)
  ]

  abbrev pub setting : String → Text → Text
  setting name value = codes name ++ codes " = " ++ value

  -- What `write_config` writes to the file.
  unfoldable pub written : ServerConfigSetting → Text
  unfolding to_string as_lines
  written c = as_lines (
      setting "port" (to_string c.port)
      ∷ setting "path" (P.insert c.dir_path)
      ∷ setting "logs" c.logs_path
      ∷ setting "db" c.db_path
      ∷ [])

-- `exist_file`.
unfoldable pub exist_file : (F : Files) → F.State → Text → Bool
exist_file F files name = elim (F.open_read files name) [ none ↦ false | some content ↦ true ]

unfoldable pub get_port : ServerConfigSetting → Text
unfolding to_string
get_port c = to_string c.port
