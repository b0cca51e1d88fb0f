-- ===== src/Client/Config/Stored.antt =====
-- What `write_config` of client/ConfigSetting.cpp leaves behind, whatever is typed.
use pds_progetto.Base.{refl, Text, Bool, ℕ, false, ◌≡◌, [], some, ◌⊎◌}
use pds_progetto.Cpp.Dialog.{pure, modify, IfOk, then-IfOk, within-IfOk, every-IfOk, IfOk-some}
use pds_progetto.Console.{Console, ask_port, ask_dir, ask_path, on_cin}
use pds_progetto.Console.Ports.{Accepts, ask_port-Accepts, IsPort, IsLog10}
use pds_progetto.Client.Config.{written, config_file, ConfigSettings}
use pds_progetto.Client.Config.Setup.{write_config, ask_address}
use pds_progetto.Cpp.Files.{Files, PathText}
use pds_progetto.Base.Int.{ℤ}
use pds_progetto.Cpp.Result.{ok}

module _ (F : Files) (P : PathText) (is_address : Text → Bool) (log10 : ℕ → ℕ)
    (law : IsLog10 log10) where
  -- The port is accepted, and the settings have just been written.
  Stores : ℤ → ConfigSettings → Console F → Type 0
  Stores port c s =
      Accepts port c.port
      × ((files : F.State) × (s.files ≡ F.open_write files config_file (written P c)))

  ask_port-on_cin :
      (fuel : ℕ) (port : ℤ) (s : Console F)
      → IfOk (λ v _. Accepts port v) (on_cin F (ask_port log10 fuel port []) s)
  ask_port-on_cin fuel port s =
      within-IfOk (λ s. s.cin) (λ cin s. record s { cin = cin }) (λ v _. Accepts port v)
        (ask_port log10 fuel port []) s (ask_port-Accepts log10 fuel port [] s.cin law)

  write_config-Stores :
      (fuel : ℕ) (c : ConfigSettings) (s : Console F)
      → IfOk (Stores c.port) (write_config F P is_address log10 fuel c s)
  unfolding write_config Stores modify pure
  write_config-Stores fuel c s =
      then-IfOk (λ _ _. Unit {0}) (Stores c.port)
        (on_cin F (ask_address is_address fuel false c.address [])) _ s (every-IfOk _ _ λ _ _. tt)
        λ address t _.
          then-IfOk (λ v _. Accepts c.port v) (Stores c.port)
            (on_cin F (ask_port log10 fuel c.port [])) _ t (ask_port-on_cin fuel c.port t)
            λ port u accepted.
              then-IfOk (λ _ _. Unit {0}) (Stores c.port) (ask_dir F fuel c.dir_path []) _ u
                (every-IfOk _ _ λ _ _. tt)
                λ dir_path v _.
                  then-IfOk (λ _ _. Unit {0}) (Stores c.port) (ask_path F fuel c.logs_path []) _ v
                    (every-IfOk _ _ λ _ _. tt)
                    λ logs_path w _.
                      (let c' : ConfigSettings = record {
                        address = address;
                        dir_path = dir_path;
                        port = port;
                        logs_path = logs_path;
                      } in
                        then-IfOk
                          (λ _ x.
                            (files : F.State) × (x.files
                              ≡ F.open_write files config_file (written P c')))
                          (Stores c.port) (modify _) _ w (w.files, refl)
                          λ _ x kept. (accepted, kept))

  -- Whatever is typed, if `write_config` returns settings, their port is the old one or one from
  -- 1000 to 9999, and the last thing that it did to the files was to write the text of these settings
  -- to the file of the settings, if the integer logarithm counts digits.
  pub write_config-IsPort :
      (fuel : ℕ) (old c : ConfigSettings) (s t : Console F)
      → write_config F P is_address log10 fuel old s ≡ some (ok c, t)
      → ((c.port ≡ old.port) ⊎ IsPort c.port)
        × ((files : F.State) × (t.files ≡ F.open_write files config_file (written P c)))
  unfolding Stores
  write_config-IsPort fuel old c s t e =
      IfOk-some (Stores old.port) (write_config F P is_address log10 fuel old s) c t
        (write_config-Stores fuel old s) e
