-- ===== src/Console.antt =====
-- The questions of client/ConfigSetting.cpp and server/ServerConfigSetting.cpp, whose bodies are the
-- same in both, over `std::cin` and a file system. The texts on the screen are left out. A question
-- is asked again until it has an answer, so each loop runs on fuel.
pub mod Answers
pub mod Ports
pub mod Paths
use pds_progetto.Cpp.Dialog.{◌>>=◌, ◌>>◌, Dialog, pure, fail, reads, modify, ends, within, spent}
use pds_progetto.Cpp.Stream.{Stream, getline, read_word, ignore_one, clear}
use pds_progetto.Base.{
  ℕ, Text, if◌then◌else◌, Bool, some, none, leb, same_text, false, map, suc, [], ◌&&◌, codes, ◌∷◌,
  not, ◌+◌, is_empty, ◌||◌, ◌==◌, true, zero,
}
use pds_progetto.Cpp.Numbers.{stoi}
use pds_progetto.Cpp.Files.{Files}
use pds_progetto.Base.Int.{ℤ, pos, negsuc}
use pds_progetto.Cpp.Effect.{Effect}
use pds_progetto.Cpp.Result.{Result, ok, runtime_error, throws}

abbrev pub to_lower : ℕ → ℕ
to_lower c = if leb b'A' c && leb c b'Z' then c + 32 else c

abbrev pub is_answer : Text → Bool
is_answer answer =
    same_text answer (codes "y")
    || same_text answer (codes "n")
    || same_text answer (codes "yes")
    || same_text answer (codes "no")
    || same_text answer (codes "q")
    || same_text answer (codes "quit")

abbrev pub starts_y : Text → Bool
starts_y [] = false
starts_y (c ∷ s) = c == b'y'

-- The answer in lower case, whether it is one, and `result`.
unfoldable pub check_answer_ok : Text → Text × Bool × Bool
check_answer_ok typed =
    let answer = map to_lower typed in
    let answer_valid = is_answer answer in (answer, answer_valid, answer_valid && starts_y answer)

-- `std::cin >> answer`: the answer, and whether the stream is still fine.
unfoldable pub next_word : Text → Dialog Stream (Text × Bool)
unfolding read_word
next_word old cin = let (word, cin') = read_word old cin in some (ok (word, not cin'.failed), cin')

-- `std::getline(std::cin, typed)`.
unfoldable pub next_line : Text → Dialog Stream Text
unfolding getline
next_line old cin = let (line, cin') = getline old cin in some (ok line, cin')

unfoldable pub yesno_from : ℕ → Text → Dialog Stream Bool
unfolding check_answer_ok
yesno_from zero answer = spent
yesno_from (suc fuel) answer =
    let again = yesno_from fuel in
    do
      (word, fine) ← next_word answer
      let (answer', valid, result) = check_answer_ok word
      elim fine [
        | false ↦ fail runtime_error
        | true ↦ elim valid [ true ↦ pure result | false ↦ again answer' ]
      ]

unfoldable pub question_yesno : ℕ → Dialog Stream Bool
unfolding yesno_from
question_yesno fuel = yesno_from fuel []

-- `(p > 0 ? (int) log10((double) p) + 1 : 1) == 4`, with `(int) log10` as an argument.
abbrev pub has_four_digits : (ℕ → ℕ) → ℤ → Bool
has_four_digits log10 (pos zero) = false
has_four_digits log10 (pos (suc k)) = log10 (suc k) + 1 == 4
has_four_digits log10 (negsuc k) = false

-- The question for the port, `port` being the member.
unfoldable pub ask_port : (ℕ → ℕ) → ℕ → ℤ → Text → Dialog Stream ℤ
unfolding stoi next_line
ask_port log10 zero port old = spent
ask_port log10 (suc fuel) port old =
    let again = ask_port log10 fuel port in
    do
      typed ← next_line old
      elim (is_empty typed) [
        | true ↦ pure port
        | false ↦ elim (stoi typed) [
          | throws e ↦ fail e
          | ok n ↦ elim (has_four_digits log10 n) [
            | true ↦ pure n
            | false ↦ do modify (λ cin. ignore_one (clear cin)); again typed
          ]
        ]
      ]

module _ (F : Files) where
  pub record Console : Type 0 where
    pub cin : Stream
    pub files : F.State

  abbrev pub on_cin : {A : Type 0} → Dialog Stream A → Dialog Console A
  on_cin = within (λ s. s.cin) (λ cin s. record s { cin = cin })

  abbrev pub on_files : {A : Type 0} → Effect F.State A → Dialog Console A
  on_files m = within (λ s. s.files) (λ files s. record s { files = files }) (ends m)

  abbrev pub looks : {A : Type 0} → (F.State → Result A) → Dialog Console A
  looks f = on_files (λ files. (f files, files))

  -- The question for the folder.
  unfoldable pub ask_dir : ℕ → Text → Text → Dialog Console Text
  unfolding next_line question_yesno
  ask_dir zero dir_path old = spent
  ask_dir (suc fuel) dir_path old =
      let again = ask_dir fuel dir_path in
      do
        typed ← on_cin (next_line old)
        elim (is_empty typed) [
          | true ↦ pure dir_path
          | false ↦ do
            there ← looks (λ files. F.exists files typed)
            elim there [
              | true ↦ do
                directory ← looks (λ files. F.is_directory files typed)
                elim directory [ true ↦ pure typed | false ↦ again typed ]
              | false ↦ do
                create ← on_cin (question_yesno fuel)
                elim create [
                  | true ↦ do done ← on_files (F.create_directory typed); pure typed
                  | false ↦ again typed
                ]
            ]
        ]

  -- The question for the path of a file, the logs or the database: the test looks at the old path.
  unfoldable pub ask_path : ℕ → Text → Text → Dialog Console Text
  unfolding next_line
  ask_path zero path old = spent
  ask_path (suc fuel) path old =
      let again = ask_path fuel path in
      do
        typed ← on_cin (next_line old)
        elim (is_empty typed) [
          | true ↦ pure path
          | false ↦ do
            directory ← looks (λ files. F.is_directory files path)
            elim directory [ true ↦ again typed | false ↦ pure typed ]
        ]
