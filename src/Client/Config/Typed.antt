-- ===== src/Client/Config/Typed.antt =====
-- `write_config` of client/ConfigSetting.cpp when every question is answered at once.
use pds_progetto.Base.{
  refl, Text, Bool, ◌++◌, ℕ, ◌∷◌, is_empty, ◌≡◌, false, suc, true, some, ◌≤◌, [],
}
use pds_progetto.Cpp.Dialog.{◌>>=◌, pure, modify, after-ok, within-ok}
use pds_progetto.Console.{Console, next_line, ask_port}
use pds_progetto.Client.Config.{written, read_config, config_file, ConfigSettings}
use pds_progetto.Client.Config.RoundTrip.{read_config-written, IsWritable}
use pds_progetto.Cpp.Files.{Files, PathText, IsReadBack, IsStored}
use pds_progetto.Client.Config.Setup.{ask_address, write_config}
use pds_progetto.Cpp.Stream.{opened_on}
use pds_progetto.Cpp.Stream.Laws.{IsLine, getline-line}
use pds_progetto.Cpp.Numbers.{to_string}
use pds_progetto.Console.Ports.{IsLog10, ask_port-IsPort_line}
use pds_progetto.Console.Paths.{typing, ask_dir-line, ask_path-line}
use pds_progetto.Base.Int.{pos}
use pds_progetto.Cpp.Result.{ok}

ask_address-line :
    (is_address : Text → Bool) (fuel : ℕ) (ec : Bool) (address old line rest : Text)
    → IsLine line
    → is_empty line ≡ false
    → is_address line ≡ true
    → ask_address is_address (suc fuel) ec address old (opened_on (line ++ b'\n' ∷ rest))
      ≡ some (ok line, opened_on rest)
unfolding ask_address next_line ◌>>=◌ pure
ask_address-line is_address fuel ec address old line rest one typed fine =
    let read = getline-line old line rest one in
    simp (ask_address, next_line, ◌>>=◌, pure, read, typed, fine)

-- The answers, each on a line.
abbrev pub answers : ConfigSettings → Text → Text
answers c rest =
    c.address
    ++ (b'\n'
        ∷ (to_string c.port ++ (b'\n' ∷ (c.dir_path ++ (b'\n' ∷ (c.logs_path ++ b'\n' ∷ rest))))))

-- What the questions ask of the answers, with the old settings and the file system.
pub record IsAccepted (F : Files) (is_address : Text → Bool) (files : F.State)
    (old c : ConfigSettings) : Type 0 where
  pub address_line : IsLine c.address
  pub address_full : is_empty c.address ≡ false
  pub address_fine : is_address c.address ≡ true
  pub number : ℕ
  pub port_is : c.port ≡ pos number
  pub port_low : 1000 ≤ number
  pub port_high : number ≤ 9999
  pub dir_line : IsLine c.dir_path
  pub dir_full : is_empty c.dir_path ≡ false
  pub dir_there : F.exists files c.dir_path ≡ ok true
  pub dir_directory : F.is_directory files c.dir_path ≡ ok true
  pub logs_line : IsLine c.logs_path
  pub logs_full : is_empty c.logs_path ≡ false
  pub old_logs_file : F.is_directory files old.logs_path ≡ ok false

module _ (F : Files) (P : PathText) (is_address : Text → Bool) (log10 : ℕ → ℕ) where
  abbrev pub stored : ConfigSettings → Text → Console F → Console F
  stored c rest s = record {
    cin = opened_on rest;
    files = F.open_write s.files config_file (written P c);
  }

  pub write_config-answers :
      (fuel : ℕ) (old c : ConfigSettings) (rest : Text) (s : Console F)
      → IsLog10 log10
      → IsAccepted F is_address s.files old c
      → write_config F P is_address log10 (suc fuel) old (typing F (answers c rest) s)
        ≡ some (ok c, stored c rest s)
  unfolding write_config pure modify
  write_config-answers fuel old c rest s law h =
      let logs_text = c.logs_path ++ b'\n' ∷ rest in
      let dir_text = c.dir_path ++ b'\n' ∷ logs_text in
      let port_text = to_string c.port ++ b'\n' ∷ dir_text in
      let first =
        ask_address-line is_address fuel false old.address [] c.address port_text h.address_line
          h.address_full h.address_fine in
      let second : ask_port log10 (suc fuel) old.port [] (opened_on port_text)
          ≡ some (ok c.port, opened_on dir_text) =
        (let line =
            ask_port-IsPort_line log10 fuel h.number dir_text old.port [] law h.port_low
              h.port_high in
          rw (h.port_is) line) in
      let third =
        ask_dir-line F fuel old.dir_path [] c.dir_path logs_text s h.dir_line h.dir_full h.dir_there
          h.dir_directory in
      let fourth =
        ask_path-line F fuel old.logs_path [] c.logs_path rest s h.logs_line h.logs_full
          h.old_logs_file in
      after-ok _ _ _ (within-ok _ _ _ _ first) (
        after-ok _ _ _ (within-ok _ _ _ _ second)
          (after-ok _ _ _ third (after-ok _ _ _ fourth (after-ok _ _ _ refl refl))))

  -- If each question is answered at once by a line that it accepts, `write_config` returns the answers
  -- as the settings; and if their text could be written to the file, `read_config` on the files
  -- afterwards gives them back, whatever the settings were before. The settings can be read back:
  -- the address and the path of the
  -- logs are words (not empty, without a space), the path of the folder is written
  -- on one line, and no line holds a keyword that `read_config` looks for before that of the line.
  -- The library reads a path back as it wrote it, and the integer logarithm counts digits.
  pub write_config-read_config :
      (fuel : ℕ) (old other c : ConfigSettings) (rest : Text) (s : Console F)
      → IsLog10 log10
      → IsReadBack P
      → IsStored F s.files config_file (written P c)
      → IsAccepted F is_address s.files old c
      → IsWritable P c
      → (s' : Console F) × ((write_config F P is_address log10
              (suc fuel)
              old
              (typing F (answers c rest) s)
            ≡ some (ok c, s'))
          × (read_config P F s'.files other ≡ c))
  write_config-read_config fuel old other c rest s law back kept accepted writable = (
    stored c rest s,
    (
      write_config-answers fuel old c rest s law accepted,
      read_config-written P back F (stored c rest s).files other c kept writable,
    ),
  )
