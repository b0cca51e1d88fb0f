-- ===== src/Client/Config/RoundTrip.antt =====
-- `read_config` of client/ConfigSetting.cpp on the file that `write_config` wrote.
use pds_progetto.Client.Config.{written}
use pds_progetto.Cpp.Find.{contains, starts_with, behind, after_first}
use pds_progetto.Client.Config.{
  ConfigSettings, read_line, setting, written, read_config, read_lines, config_file,
}
use pds_progetto.Base.{
  refl, Text, ℕ, codes, ◌∷◌, ◌≡◌, ◌≢◌, ◌<◌, [], false, All, ap, ◌==◌, ◌++◌, arith, some, ◌∙◌,
}
use pds_progetto.Cpp.Stream.Laws.{
  IsWord, read_word-IsWord, IsLine, IsWord-IsLine, lines_of-as_lines, to_string-IsLine,
}
use pds_progetto.Cpp.Numbers.{to_string}
use pds_progetto.Base.Int.{pos, ℤ}
use pds_progetto.Cpp.Find.Laws.{contains-without, read_int-to_string}
use pds_progetto.Cpp.Numbers.Digits.{to_string-All}
use pds_progetto.Cpp.Stream.{lines_of}
use pds_progetto.Cpp.Files.{Files, PathText, IsReadBack}

-- Settings that the file can hold: the address and the path of the logs are words, no line contains
-- the word of an earlier test, and the port is an `int` that is not negative.
pub record IsWritable (P : PathText) (c : ConfigSettings) : Type 0 where
  pub address_word : IsWord c.address
  pub address_ne_nil : c.address ≢ []
  pub number : ℕ
  pub port_is : c.port ≡ pos number
  pub port_fits : number < 2147483648
  pub path_line : IsLine (P.insert c.dir_path)
  pub path_no_address : contains (codes "address") (setting P "path" (P.insert c.dir_path)) ≡ false
  pub path_no_port : contains (codes "port") (setting P "path" (P.insert c.dir_path)) ≡ false
  pub logs_word : IsWord c.logs_path
  pub logs_ne_nil : c.logs_path ≢ []
  pub logs_no_address : contains (codes "address") (setting P "logs" c.logs_path) ≡ false
  pub logs_no_port : contains (codes "port") (setting P "logs" c.logs_path) ≡ false
  pub logs_no_path : contains (codes "path") (setting P "logs" c.logs_path) ≡ false

-- No digit is the letter a.
port_letters : (n : ℕ) → All (λ c. (b'a' == c) ≡ false) (codes "port = " ++ to_string (pos n))
port_letters n =
    let digits = to_string-All (λ c. (b'a' == c) ≡ false) (λ d h. ground arith) n in
    (refl, (refl, (refl, (refl, (refl, (refl, (refl, digits)))))))

module _ (P : PathText) (back : IsReadBack P) where
  read_line-address :
      (old : ConfigSettings) (a : Text)
      → IsWord a
      → a ≢ []
      → read_line P old (setting P "address" a) ≡ record old { address = a }
  unfolding read_line contains starts_with after_first behind
  read_line-address old a word filled = rw (read_word-IsWord old.address a word filled) refl

  read_line-port :
      (old : ConfigSettings) (n : ℕ)
      → n < 2147483648
      → read_line P old (setting P "port" (to_string (pos n))) ≡ record old { port = pos n }
  unfolding read_line contains starts_with after_first behind
  read_line-port old n fits =
      rw
        (contains-without b'a' (codes "ddress") (setting P "port" (to_string (pos n)))
          (port_letters n))
        (ap (λ x. record old { port = x }) (read_int-to_string old.port n fits))

  read_line-port_value :
      (old : ConfigSettings) (v : ℤ) (n : ℕ)
      → v ≡ pos n
      → n < 2147483648
      → read_line P old (setting P "port" (to_string v)) ≡ record old { port = v }
  read_line-port_value old v n e fits = rw (e) (read_line-port old n fits)

  read_line-path :
      (old : ConfigSettings) (p : Text)
      → contains (codes "address") (setting P "path" (P.insert p)) ≡ false
      → contains (codes "port") (setting P "path" (P.insert p)) ≡ false
      → read_line P old (setting P "path" (P.insert p)) ≡ record old { dir_path = p }
  unfolding read_line after_first behind
  read_line-path old p no_address no_port =
      rw (no_address, no_port)
        (ap (λ x. record old { dir_path = x }) (back.extract-insert old.dir_path p))

  read_line-logs :
      (old : ConfigSettings) (l : Text)
      → IsWord l
      → l ≢ []
      → contains (codes "address") (setting P "logs" l) ≡ false
      → contains (codes "port") (setting P "logs" l) ≡ false
      → contains (codes "path") (setting P "logs" l) ≡ false
      → read_line P old (setting P "logs" l) ≡ record old { logs_path = l }
  unfolding read_line after_first behind
  read_line-logs old l word filled no_address no_port no_path =
      rw (no_address, no_port, no_path)
        (ap (λ x. record old { logs_path = x }) (read_word-IsWord old.logs_path l word filled))

  lines_of-written :
      (c : ConfigSettings)
      → IsWritable P c
      → lines_of (written P c)
        ≡ setting P "address" c.address
          ∷ setting P "port" (to_string c.port)
          ∷ setting P "path" (P.insert c.dir_path)
          ∷ setting P "logs" c.logs_path
          ∷ []
  unfolding written
  lines_of-written c w = lines_of-as_lines _ (
    (
      refl,
      (
        refl,
        (
          refl,
          (
            refl,
            (refl, (refl, (refl, (refl, (refl, (refl, IsWord-IsLine c.address w.address_word)))))),
          ),
        ),
      ),
    ),
    (
      (
        refl,
        (refl, (refl, (refl, (refl, (refl, (refl, to_string-IsLine c.port w.number w.port_is)))))),
      ),
      (
        (refl, (refl, (refl, (refl, (refl, (refl, (refl, w.path_line))))))),
        (
          (
            refl,
            (refl, (refl, (refl, (refl, (refl, (refl, IsWord-IsLine c.logs_path w.logs_word)))))),
          ),
          tt,
        ),
      ),
    ),
  )

  -- `read_config` on a file that `write_config` wrote gives back the settings, whatever they were
  -- before, if the address and the path of the logs are words, the port is an `int` that is not
  -- negative, the path of the folder is written on one line, and neither line of a path contains the
  -- word that an earlier test looks for.
  pub read_config-written :
      (F : Files) (files : F.State) (old c : ConfigSettings)
      → F.open_read files config_file ≡ some (written P c)
      → IsWritable P c
      → read_config P F files old ≡ c
  unfolding read_config read_lines
  read_config-written F files old c there w =
      let path_setting = setting P "path" (P.insert c.dir_path) in
      let logs_setting = setting P "logs" c.logs_path in
      let after_address = record old { address = c.address } in
      let after_port = record after_address { port = c.port } in
      let after_path = record after_port { dir_path = c.dir_path } in
      rw (there, read_config)
        (ap (λ lines. read_lines P old lines) (lines_of-written c w)
          ∙ ap
              (λ x.
                read_lines P x
                  (setting P "port" (to_string c.port) ∷ path_setting ∷ logs_setting ∷ []))
              (read_line-address old c.address w.address_word w.address_ne_nil)
          ∙ ap (λ x. read_lines P x (path_setting ∷ logs_setting ∷ []))
              (read_line-port_value after_address c.port w.number w.port_is w.port_fits)
          ∙ ap (λ x. read_lines P x (logs_setting ∷ []))
              (read_line-path after_port c.dir_path w.path_no_address w.path_no_port)
          ∙ read_line-logs after_path c.logs_path w.logs_word w.logs_ne_nil w.logs_no_address
              w.logs_no_port w.logs_no_path)
