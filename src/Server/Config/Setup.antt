-- ===== src/Server/Config/Setup.antt =====
-- `write_config` and `init_configuration` of server/ServerConfigSetting.cpp. `(int) log10` is an
-- argument.
use pds_progetto.Cpp.Dialog.{Dialog, ◌>>=◌, ◌>>◌, pure, reads, modify}
use pds_progetto.Console as Shared
use pds_progetto.Console.{Console, on_cin, on_files, looks}
use pds_progetto.Server.Config.{written, read_config, exist_file, config_file, ServerConfigSetting}
use pds_progetto.Cpp.Files.{Files, PathText}
use pds_progetto.Base.{ℕ, [], true, false, Text, Bool}
use pds_progetto.Cpp.Stream.{ignore_one, Stream}
use pds_progetto.Base.Int.{ℤ}

-- The questions, whose bodies are those of client/ConfigSetting.cpp.
abbrev pub check_answer_ok : Text → Text × Bool × Bool
check_answer_ok = Shared.check_answer_ok

abbrev pub question_yesno : ℕ → Dialog Stream Bool
question_yesno = Shared.question_yesno

abbrev pub ask_port : (ℕ → ℕ) → ℕ → ℤ → Text → Dialog Stream ℤ
ask_port = Shared.ask_port

abbrev pub ask_dir : (F : Files) → ℕ → Text → Text → Dialog (Console F) Text
ask_dir = Shared.ask_dir

abbrev pub ask_logs_path : (F : Files) → ℕ → Text → Text → Dialog (Console F) Text
ask_logs_path = Shared.ask_path

abbrev pub ask_db_path : (F : Files) → ℕ → Text → Text → Dialog (Console F) Text
ask_db_path = Shared.ask_path

module _ (F : Files) (P : PathText) (log10 : ℕ → ℕ) where
  -- The settings afterwards, which are stored in the file.
  unfoldable pub write_config : ℕ → ServerConfigSetting → Dialog (Console F) ServerConfigSetting
  unfolding written
  write_config fuel c = do
    port ← on_cin F (ask_port log10 fuel c.port [])
    dir_path ← ask_dir F fuel c.dir_path []
    logs_path ← ask_logs_path F fuel c.logs_path []
    db_path ← ask_db_path F fuel c.db_path []
    let c' : ServerConfigSetting = record {
      dir_path = dir_path;
      port = port;
      logs_path = logs_path;
      db_path = db_path;
    }
    modify (λ s. record s { files = F.open_write s.files config_file (written P c') })
    pure c'

  unfoldable pub init_configuration :
      ℕ → ServerConfigSetting → Dialog (Console F) ServerConfigSetting
  unfolding exist_file read_config write_config ignore_one
  init_configuration fuel c = do
    exist_config ← reads (λ s. exist_file F s.files config_file)
    there ← looks F (λ files. F.exists files c.dir_path)
    done ← elim there [ true ↦ pure true | false ↦ on_files F (F.create_directory c.dir_path) ]
    elim exist_config [
      | false ↦ write_config fuel c
      | true ↦ do
        use_it ← on_cin F (question_yesno fuel)
        elim use_it [
          | true ↦ reads (λ s. read_config P F s.files c)
          | false ↦ do on_cin F (modify ignore_one); write_config fuel c
        ]
    ]
