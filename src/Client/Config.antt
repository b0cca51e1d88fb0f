-- ===== src/Client/Config.antt =====
-- client/ConfigSetting.h and client/ConfigSetting.cpp. The boxes and questions on the screen are left
-- out; `std::cin` is a stream.
pub mod RoundTrip
pub mod Setup
pub mod Typed
pub mod Stored
pub mod Menu
use pds_progetto.Cpp.Find.{contains, after_first, read_int}
use pds_progetto.Base.{
  String, Text, codes, List, if◌then◌else◌, ◌∷◌, ◌++◌, Bool, none, some, [], false, true,
}
use pds_progetto.Cpp.Stream.{read_word, lines_of, opened_on, as_lines}
use pds_progetto.Cpp.Numbers.{to_string}
use pds_progetto.Cpp.Files.{Files, PathText}
use pds_progetto.Base.Int.{ℤ, pos}

pub record ConfigSettings : Type 0 where
  pub address : Text
  pub dir_path : Text
  pub port : ℤ
  pub logs_path : Text

-- The initializers of the members.
abbrev pub default_settings : ConfigSettings
default_settings = record {
  address = codes "127.0.0.1";
  dir_path = codes ".";
  port = pos 8080;
  logs_path = codes ".client_logs.txt";
}

abbrev pub config_file : Text
config_file = codes ".client_config.txt"

module _ (P : PathText) where
  -- The body of the loop of `read_config`.
  unfoldable pub read_line : ConfigSettings → Text → ConfigSettings
  unfolding contains after_first read_int read_word
  read_line c line =
      let sin = after_first b'=' line in
      if contains (codes "address") line
      then record c { address = (read_word c.address (opened_on sin)).0 }
      else if contains (codes "port") line
      then record c { port = read_int c.port sin }
      else if contains (codes "path") line
      then record c { dir_path = P.extract c.dir_path sin }
      else if contains (codes "logs") line
      then record c { logs_path = (read_word c.logs_path (opened_on sin)).0 }
      else c

  unfoldable pub read_lines : ConfigSettings → List Text → ConfigSettings
  unfolding read_line
  read_lines c [] = c
  read_lines c (line ∷ lines) = read_lines (read_line c line) lines

  unfoldable pub read_config : (F : Files) → F.State → ConfigSettings → ConfigSettings
  unfolding read_lines lines_of
  read_config F files c = elim (F.open_read files config_file) [
    | none ↦ c
    | some content ↦ read_lines c (lines_of content)
  ]

  abbrev pub setting : String → Text → Text
  setting name value = codes name ++ codes " = " ++ value

  -- What `write_config` writes to the file.
  unfoldable pub written : ConfigSettings → Text
  unfolding to_string as_lines
  written c = as_lines (
      setting "address" c.address
      ∷ setting "port" (to_string c.port)
      ∷ setting "path" (P.insert c.dir_path)
      ∷ setting "logs" c.logs_path
      ∷ [])

-- `exist_file`.
unfoldable pub exist_file : (F : Files) → F.State → Text → Bool
exist_file F files name = elim (F.open_read files name) [ none ↦ false | some content ↦ true ]

unfoldable pub get_port : ConfigSettings → Text
unfolding to_string
get_port c = to_string c.port
