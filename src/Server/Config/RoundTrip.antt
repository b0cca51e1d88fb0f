-- ===== src/Server/Config/RoundTrip.antt =====
-- `read_config` of server/ServerConfigSetting.cpp on the file that `write_config` wrote.
use pds_progetto.Server.Config.{
  ServerConfigSetting, config_file, setting, read_line, read_lines, read_config, written,
}
use pds_progetto.Cpp.Find.{contains, starts_with, behind, after_first}
use pds_progetto.Base.{refl, ℕ, ◌≡◌, Text, codes, some, ◌<◌, false, ◌≢◌, ap, ◌∷◌, [], ◌∙◌}
use pds_progetto.Cpp.Files.{PathText, IsReadBack, Files}
use pds_progetto.Base.Int.{ℤ, pos}
use pds_progetto.Cpp.Stream.{lines_of}
use pds_progetto.Cpp.Numbers.{to_string}
use pds_progetto.Cpp.Stream.Laws.{
  IsWord, IsLine, read_word-IsWord, lines_of-as_lines, to_string-IsLine, IsWord-IsLine,
}
use pds_progetto.Cpp.Find.Laws.{read_int-to_string}

-- Settings that the file can hold: the paths of the logs and of the database are words, no line
-- contains the word of an earlier test, and the port is an `int` that is not negative.
pub record IsWritable (P : PathText) (c : ServerConfigSetting) : Type 0 where
  pub number : ℕ
  pub port_is : c.port ≡ pos number
  pub port_fits : number < 2147483648
  pub path_line : IsLine (P.insert c.dir_path)
  pub path_no_port : contains (codes "port") (setting P "path" (P.insert c.dir_path)) ≡ false
  pub logs_word : IsWord c.logs_path
  pub logs_ne_nil : c.logs_path ≢ []
  pub logs_no_port : contains (codes "port") (setting P "logs" c.logs_path) ≡ false
  pub logs_no_path : contains (codes "path") (setting P "logs" c.logs_path) ≡ false
  pub db_word : IsWord c.db_path
  pub db_ne_nil : c.db_path ≢ []
  pub db_no_port : contains (codes "port") (setting P "db" c.db_path) ≡ false
  pub db_no_path : contains (codes "path") (setting P "db" c.db_path) ≡ false
  pub db_no_logs : contains (codes "logs") (setting P "db" c.db_path) ≡ false

module _ (P : PathText) (back : IsReadBack P) where
  read_line-port :
      (old : ServerConfigSetting) (v : ℤ) (n : ℕ)
      → v ≡ pos n
      → n < 2147483648
      → read_line P old (setting P "port" (to_string v)) ≡ record old { port = v }
  unfolding read_line contains starts_with after_first behind
  read_line-port old v n e fits =
      rw (e) (ap (λ x. record old { port = x }) (read_int-to_string old.port n fits))

  read_line-path :
      (old : ServerConfigSetting) (p : Text)
      → contains (codes "port") (setting P "path" (P.insert p)) ≡ false
      → read_line P old (setting P "path" (P.insert p)) ≡ record old { dir_path = p }
  unfolding read_line after_first behind
  read_line-path old p no_port =
      rw (no_port) (ap (λ x. record old { dir_path = x }) (back.extract-insert old.dir_path p))

  read_line-logs :
      (old : ServerConfigSetting) (l : Text)
      → IsWord l
      → l ≢ []
      → contains (codes "port") (setting P "logs" l) ≡ false
      → contains (codes "path") (setting P "logs" l) ≡ false
      → read_line P old (setting P "logs" l) ≡ record old { logs_path = l }
  unfolding read_line after_first behind
  read_line-logs old l word filled no_port no_path =
      rw (no_port, no_path)
        (ap (λ x. record old { logs_path = x }) (read_word-IsWord old.logs_path l word filled))

  read_line-db :
      (old : ServerConfigSetting) (d : Text)
      → IsWord d
      → d ≢ []
      → contains (codes "port") (setting P "db" d) ≡ false
      → contains (codes "path") (setting P "db" d) ≡ false
      → contains (codes "logs") (setting P "db" d) ≡ false
      → read_line P old (setting P "db" d) ≡ record old { db_path = d }
  unfolding read_line after_first behind
  read_line-db old d word filled no_port no_path no_logs =
      rw (no_port, no_path, no_logs)
        (ap (λ x. record old { db_path = x }) (read_word-IsWord old.db_path d word filled))

  lines_of-written :
      (c : ServerConfigSetting)
      → IsWritable P c
      → lines_of (written P c)
        ≡ setting P "port" (to_string c.port)
          ∷ setting P "path" (P.insert c.dir_path)
          ∷ setting P "logs" c.logs_path
          ∷ setting P "db" c.db_path
          ∷ []
  unfolding written
  lines_of-written c w = lines_of-as_lines _ (
    (
      refl,
      (refl, (refl, (refl, (refl, (refl, (refl, to_string-IsLine c.port w.number w.port_is)))))),
    ),
    (
      (refl, (refl, (refl, (refl, (refl, (refl, (refl, w.path_line))))))),
      (
        (
          refl,
          (refl, (refl, (refl, (refl, (refl, (refl, IsWord-IsLine c.logs_path w.logs_word)))))),
        ),
        ((refl, (refl, (refl, (refl, (refl, IsWord-IsLine c.db_path w.db_word))))), tt),
      ),
    ),
  )

  -- `read_config` on a file that `write_config` wrote gives back the settings, whatever they were
  -- before, if the paths of the logs and of the database are words, the port is an `int` that is not
  -- negative, the path of the folder is written on one line, and no line contains the word that an
  -- earlier test looks for.
  pub read_config-written_server :
      (F : Files) (files : F.State) (old c : ServerConfigSetting)
      → F.open_read files config_file ≡ some (written P c)
      → IsWritable P c
      → read_config P F files old ≡ c
  unfolding read_config read_lines
  read_config-written_server F files old c there w =
      let logs_setting = setting P "logs" c.logs_path in
      let db_setting = setting P "db" c.db_path in
      let after_port = record old { port = c.port } in
      let after_path = record after_port { dir_path = c.dir_path } in
      let after_logs = record after_path { logs_path = c.logs_path } in
      rw (there, read_config)
        (ap (λ lines. read_lines P old lines) (lines_of-written c w)
          ∙ ap
              (λ x.
                read_lines P x
                  (setting P "path" (P.insert c.dir_path) ∷ logs_setting ∷ db_setting ∷ []))
              (read_line-port old c.port w.number w.port_is w.port_fits)
          ∙ ap (λ x. read_lines P x (logs_setting ∷ db_setting ∷ []))
              (read_line-path after_port c.dir_path w.path_no_port)
          ∙ ap (λ x. read_lines P x (db_setting ∷ []))
              (read_line-logs after_path c.logs_path w.logs_word w.logs_ne_nil w.logs_no_port
                w.logs_no_path)
          ∙ read_line-db after_logs c.db_path w.db_word w.db_ne_nil w.db_no_port w.db_no_path
              w.db_no_logs)
