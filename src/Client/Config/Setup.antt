-- ===== src/Client/Config/Setup.antt =====
-- `write_config` and `init_configuration` of client/ConfigSetting.cpp. The syntax of addresses
-- (`boost::asio::ip::address::from_string`) and `(int) log10` are arguments.
use pds_progetto.Cpp.Dialog.{Dialog, ◌>>=◌, ◌>>◌, pure, reads, modify, spent}
use pds_progetto.Console.{Console, next_line, ask_port, ask_dir, question_yesno, ask_path, on_cin}
use pds_progetto.Cpp.Files.{Files, PathText}
use pds_progetto.Base.{Text, Bool, ℕ, suc, true, is_empty, zero, false, []}
use pds_progetto.Cpp.Stream.{Stream, ignore_one, clear}
use pds_progetto.Client.Config.{exist_file, read_config, written}
use pds_progetto.Client.Config.{ConfigSettings, config_file}

-- The question for the address; `ec` is whether the last address that was typed is wrong.
unfoldable pub ask_address : (Text → Bool) → ℕ → Bool → Text → Text → Dialog Stream Text
unfolding next_line
ask_address is_address zero ec address old = spent
ask_address is_address (suc fuel) ec address old =
    let again = ask_address is_address fuel true address in
    do
      typed ← next_line old
      elim (is_empty typed) [
        | true ↦ elim ec [ true ↦ again typed | false ↦ pure address ]
        | false ↦ elim (is_address typed) [
          | true ↦ pure typed
          | false ↦ do modify clear; again typed
        ]
      ]

module _ (F : Files) (P : PathText) (is_address : Text → Bool) (log10 : ℕ → ℕ) where
  -- The settings afterwards, which are stored in the file.
  unfoldable pub write_config : ℕ → ConfigSettings → Dialog (Console F) ConfigSettings
  unfolding ask_address ask_port ask_dir ask_path written
  write_config fuel c = do
    address ← on_cin F (ask_address is_address fuel false c.address [])
    port ← on_cin F (ask_port log10 fuel c.port [])
    dir_path ← ask_dir F fuel c.dir_path []
    logs_path ← ask_path F fuel c.logs_path []
    let c' : ConfigSettings = record {
      address = address;
      dir_path = dir_path;
      port = port;
      logs_path = logs_path;
    }
    modify (λ s. record s { files = F.open_write s.files config_file (written P c') })
    pure c'

  unfoldable pub init_configuration : ℕ → ConfigSettings → Dialog (Console F) ConfigSettings
  unfolding exist_file question_yesno read_config write_config ignore_one
  init_configuration fuel c = do
    exist_config ← reads (λ s. exist_file F s.files config_file)
    elim exist_config [
      | false ↦ write_config fuel c
      | true ↦ do
        use_it ← on_cin F (question_yesno fuel)
        elim use_it [
          | true ↦ reads (λ s. read_config P F s.files c)
          | false ↦ do on_cin F (modify ignore_one); write_config fuel c
        ]
    ]
