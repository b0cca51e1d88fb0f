-- ===== src/Examples/Configs.antt =====
-- The questions and the files of the configurations at concrete inputs.
use pds_progetto.Base.{
  refl, ◌++◌, ℕ, Text, suc, ◌<◌, arith, drop, codes, ◌/◌, ◌≤◌, ◌≡◌, if◌then◌else◌, ◌^◌, some, ltb,
  Bool-cases, inl, false, zero, inr, ◌+◌, Bool, ap, ◌⊎◌, [], ◌∷◌, text_eq, none, List,
}
use pds_progetto.Cpp.Dialog.{◌>>=◌, pure}
use pds_progetto.Client.Config as Client
use pds_progetto.Client.Config.RoundTrip as ClientRoundTrip
use pds_progetto.Client.Config.Typed as ClientTyped
use pds_progetto.Client.Config.Setup as ClientSetup
use pds_progetto.Examples.Disk.{disk, content_of}
use pds_progetto.Base.Equality.{same_text}
use pds_progetto.Server.Config as Server
use pds_progetto.Server.Config.RoundTrip as ServerRoundTrip
use pds_progetto.Server.Config.Typed as ServerTyped
use pds_progetto.Server.Config.Setup as ServerSetup
use native.Mathlib.Nat.{pow-suc}
use pds_progetto.Console.{Console, question_yesno, ask_port, next_word}
use pds_progetto.Client.Config.{ConfigSettings}
use pds_progetto.Server.Config.{ServerConfigSetting}
use pds_progetto.Client.Config.Typed.{write_config-read_config, write_config-answers, stored}
use pds_progetto.Server.Config.Typed.{write_config-read_config_server}
use pds_progetto.Console.Ports.{IsLog10, IsPort, ask_port-to_string}
use pds_progetto.Cpp.Files.{PathText, IsReadBack, IsStored}
use pds_progetto.Cpp.Stream.{opened_on, Stream}
use pds_progetto.Cpp.Result.{ok}
use pds_progetto.Console.Answers.{first_answer, question_yesno-first_answer}
use pds_progetto.Cpp.Stream.Words.{words_of}
use pds_progetto.Base.Int.{pos}
use pds_progetto.Base.Dict.{Dict, lookup, lookup-assign}
use pds_progetto.Cpp.Find.{contains, starts_with}
use pds_progetto.Client.FileWatcher.Mirror.{Kind, directory, regular, absent}
use pds_progetto.Cpp.Numbers.{to_string}
use pds_progetto.Console.Paths.{typing}
use pds_progetto.Client.Config.Menu.Machine.{chosen, menu-chosen}
use pds_progetto.Client.Config.Menu.{menu, restore}
use pds_progetto.Client.Config.Stored.{write_config-IsPort}

-- The digits behind the first.
abbrev log10_from : ℕ → ℕ → ℕ
log10_from zero n = 0
log10_from (suc f) n = let rest = suc (log10_from f (n / 10)) in if ltb n 10 then 0 else rest

abbrev log10 : ℕ → ℕ
log10 n = log10_from n n

log10_from-bounds :
    (f n : ℕ) → 0 < n → n ≤ f → (10 ^ log10_from f n ≤ n) × (n < 10 ^ suc (log10_from f n))
log10_from-bounds zero n some_ few = absurd (omega arith)
log10_from-bounds (suc f) n some_ few = elim (Bool-cases (ltb n 10)) [
  | inl small ↦ rw (small) (ground arith, ground arith)
  | inr large ↦
      (let ih = log10_from-bounds f (n / 10) (ground arith) (omega arith) in
        rw (large) (
          omega (arith, ih.0, pow-suc 10 (log10_from f (n / 10))),
          omega (arith, ih.1, pow-suc 10 (suc (log10_from f (n / 10)))),
        ))
]

add_one : (l : ℕ) → 10 ^ suc l ≡ 10 ^ (l + 1)
add_one l = ap (λ k. 10 ^ k) (omega arith)

log10-IsLog10 : IsLog10 log10
log10-IsLog10 n some_ =
    let h = log10_from-bounds n n some_ (omega arith) in
    (h.0, omega (arith, h.1, add_one (log10_from n n)))

-- A path without quotes, behind a space.
abbrev plain : PathText
plain = record { insert = λ p. p; extract = λ old text. drop 1 text }

abbrev plain-IsReadBack : IsReadBack plain
plain-IsReadBack = record { extract-insert = λ old p. refl }

disk-IsStored :
    (files : Dict Text Kind) (path : Text) (content : List ℕ) → IsStored disk files path content
disk-IsStored files path content =
    let beq = (text_eq.beq_iff path path).1 refl in
    let found = rw beq at (lookup-assign path path (regular 1 content) files) in
    ap (λ o. content_of (elim o [ none ↦ absent | some k ↦ k ])) found

test_no :
    (question_yesno 5 (opened_on (codes "what\n NO\nrest")))
    ≡ some (ok false, opened_on (codes "\nrest"))
unfolding question_yesno ◌>>=◌ next_word same_text pure
test_no = refl

question_yesno-first_answer_example :
    (cin : Stream) × (question_yesno 3 (opened_on (codes "ja Yes"))
      ≡ some (first_answer (words_of (codes "ja Yes")), cin))
unfolding words_of
question_yesno-first_answer_example = question_yesno-first_answer (codes "ja Yes") 3 (omega arith)

-- The settings that are typed in for the client and for the server.
abbrev client_settings : ConfigSettings
client_settings = record {
  address = codes "10.0.0.1";
  dir_path = codes "/srv";
  port = pos 9090;
  logs_path = codes "log.txt";
}

abbrev with_folder : Dict Text Kind
with_folder = (codes "/srv", directory) ∷ []

abbrev console : Console disk
console = record { cin = opened_on []; files = with_folder }

-- The addresses of the example.
abbrev is_address : Text → Bool
is_address a = same_text a (codes "10.0.0.1")

client_settings-IsWritable : ClientRoundTrip.IsWritable plain client_settings
unfolding contains starts_with
client_settings-IsWritable = record {
  address_word = (refl, (refl, (refl, (refl, (refl, (refl, (refl, (refl, tt))))))));
  address_ne_nil = λ e. absurd (ground arith);
  number = 9090;
  port_is = refl;
  port_fits = omega arith;
  path_line = (refl, (refl, (refl, (refl, tt))));
  path_no_address = refl;
  path_no_port = refl;
  logs_word = (refl, (refl, (refl, (refl, (refl, (refl, (refl, tt)))))));
  logs_ne_nil = λ e. absurd (ground arith);
  logs_no_address = refl;
  logs_no_port = refl;
  logs_no_path = refl;
}

client_settings-IsAccepted :
    ClientTyped.IsAccepted disk is_address with_folder Client.default_settings client_settings
unfolding lookup same_text
client_settings-IsAccepted = record {
  address_line = (refl, (refl, (refl, (refl, (refl, (refl, (refl, (refl, tt))))))));
  address_full = refl;
  address_fine = refl;
  number = 9090;
  port_is = refl;
  port_low = omega arith;
  port_high = omega arith;
  dir_line = (refl, (refl, (refl, (refl, tt))));
  dir_full = refl;
  dir_there = refl;
  dir_directory = refl;
  logs_line = (refl, (refl, (refl, (refl, (refl, (refl, (refl, tt)))))));
  logs_full = refl;
  old_logs_file = refl;
}

write_config-read_config_example :
    (s' : Console disk) × ((ClientSetup.write_config disk plain is_address log10 1
          Client.default_settings
          (typing disk (ClientTyped.answers client_settings []) console)
        ≡ some (ok client_settings, s'))
      × (Client.read_config plain disk s'.files Client.default_settings ≡ client_settings))
write_config-read_config_example =
    write_config-read_config disk plain is_address log10 0 Client.default_settings
      Client.default_settings client_settings [] console log10-IsLog10 plain-IsReadBack
      (disk-IsStored _ Client.config_file _) client_settings-IsAccepted client_settings-IsWritable

-- The console after the answers.
abbrev answered_console : Console disk
answered_console = stored disk plain is_address log10 client_settings [] console

write_config-IsPort_example :
    ((pos 9090 ≡ pos 8080) ⊎ IsPort (pos 9090))
    × ((files : Dict Text Kind) × (answered_console.files
          ≡ disk.open_write files Client.config_file (Client.written plain client_settings)))
write_config-IsPort_example =
    write_config-IsPort disk plain is_address log10 log10-IsLog10 1 Client.default_settings
      client_settings (typing disk (ClientTyped.answers client_settings []) console)
      answered_console
      (write_config-answers disk plain is_address log10 0 Client.default_settings client_settings []
        console log10-IsLog10 client_settings-IsAccepted)

ask_port-to_string_example :
    ask_port log10 2 (pos 9090) [] (opened_on (to_string (pos 80) ++ b'\n' ∷ b'x' ∷ codes "8080\n"))
    ≡ ask_port log10 1 (pos 9090) (to_string (pos 80)) (opened_on (codes "8080\n"))
ask_port-to_string_example =
    ask_port-to_string log10 1 80 b'x' (codes "8080\n") (pos 9090) [] log10-IsLog10 (omega arith)

abbrev server_settings : ServerConfigSetting
server_settings = record {
  dir_path = codes "/srv";
  port = pos 9090;
  logs_path = codes "log.txt";
  db_path = codes "a.db";
}

server_settings-IsWritable : ServerRoundTrip.IsWritable plain server_settings
unfolding contains starts_with
server_settings-IsWritable = record {
  number = 9090;
  port_is = refl;
  port_fits = omega arith;
  path_line = (refl, (refl, (refl, (refl, tt))));
  path_no_port = refl;
  logs_word = (refl, (refl, (refl, (refl, (refl, (refl, (refl, tt)))))));
  logs_ne_nil = λ e. absurd (ground arith);
  logs_no_port = refl;
  logs_no_path = refl;
  db_word = (refl, (refl, (refl, (refl, tt))));
  db_ne_nil = λ e. absurd (ground arith);
  db_no_port = refl;
  db_no_path = refl;
  db_no_logs = refl;
}

server_settings-IsAccepted :
    ServerTyped.IsAccepted disk with_folder Server.default_settings server_settings
unfolding lookup same_text
server_settings-IsAccepted = record {
  number = 9090;
  port_is = refl;
  port_low = omega arith;
  port_high = omega arith;
  dir_line = (refl, (refl, (refl, (refl, tt))));
  dir_full = refl;
  dir_there = refl;
  dir_directory = refl;
  logs_line = (refl, (refl, (refl, (refl, (refl, (refl, (refl, tt)))))));
  logs_full = refl;
  old_logs_file = refl;
  db_line = (refl, (refl, (refl, (refl, tt))));
  db_full = refl;
  old_db_file = refl;
}

write_config-read_config_server_example :
    (s' : Console disk) × ((ServerSetup.write_config disk plain log10 1 Server.default_settings
          (typing disk (ServerTyped.answers server_settings []) console)
        ≡ some (ok server_settings, s'))
      × (Server.read_config plain disk s'.files Server.default_settings ≡ server_settings))
write_config-read_config_server_example =
    write_config-read_config_server disk plain log10 0 Server.default_settings
      Server.default_settings server_settings [] console log10-IsLog10 plain-IsReadBack
      (disk-IsStored _ Server.config_file _) server_settings-IsAccepted server_settings-IsWritable

menu-chosen_example :
    (cin : Stream) × (menu 6 (opened_on (codes "x q no 2 yes")) ≡ some (ok restore, cin))
unfolding words_of chosen same_text
menu-chosen_example = menu-chosen (codes "x q no 2 yes") 6 (omega arith)
