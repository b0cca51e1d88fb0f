-- ===== src/Client/Config/Menu.antt =====
-- `menu` and `question_menu` of client/ConfigSetting.cpp, and the enumeration Command of
-- client/ConfigSetting.h. The texts on the screen are left out.
pub mod Choices
pub mod Machine
use pds_progetto.Cpp.Dialog.{Dialog, ◌>>=◌, pure, fail, spent}
use pds_progetto.Base.{
  ℕ, Text, Bool, false, suc, ◌∷◌, if◌then◌else◌, [], leb, ◌||◌, true, ◌&&◌, same_text, codes, zero,
}
use pds_progetto.Console.{next_word, question_yesno, check_answer_ok}
use pds_progetto.Cpp.Result.{Result, runtime_error, ok, throws}
use pds_progetto.Cpp.Stream.{Stream}
use pds_progetto.Base.Int.{ℤ, pos, negsuc}
use pds_progetto.Cpp.Numbers.{stoi}

pub data Command : Type 0 where
  end normal restore : Command

abbrev pub first_is_digit : Text → Bool
first_is_digit [] = false
first_is_digit (c ∷ s) = leb b'0' c && leb c b'9'

-- The number that `question_menu` returns for an answer.
unfoldable pub response_to : Text → Result ℤ
unfolding stoi
response_to answer = if first_is_digit answer then stoi answer else ok (pos 0)

unfoldable pub question_menu_from : ℕ → Text → Dialog Stream ℤ
unfolding next_word check_answer_ok response_to
question_menu_from zero answer = spent
question_menu_from (suc fuel) answer =
    let again = question_menu_from fuel in
    do
      (word, fine) ← next_word answer
      let (answer', valid, result) = check_answer_ok word
      elim fine [
        | false ↦ fail runtime_error
        | true ↦ elim (valid || same_text answer' (codes "1") || same_text answer' (codes "2")) [
          | true ↦ elim (response_to answer') [ ok n ↦ pure n | throws e ↦ fail e ]
          | false ↦ again answer'
        ]
      ]

unfoldable pub question_menu : ℕ → Dialog Stream ℤ
unfolding question_menu_from
question_menu fuel = question_menu_from fuel []

-- A choice that the user has to confirm; otherwise the menu is shown again.
unfoldable pub confirmed : Dialog Stream Command → ℕ → Command → Dialog Stream Command
unfolding question_yesno
confirmed again fuel command = do
  sure ← question_yesno fuel
  elim sure [ true ↦ pure command | false ↦ again ]

-- The cases of `switch (response)`.
unfoldable pub responded : Dialog Stream Command → ℕ → ℤ → Dialog Stream Command
unfolding confirmed
responded again fuel (pos zero) = confirmed again fuel end
responded again fuel (pos (suc zero)) = pure normal
responded again fuel (pos (suc (suc zero))) = confirmed again fuel restore
responded again fuel (pos (suc (suc (suc n)))) = again
responded again fuel (negsuc n) = again

unfoldable pub menu : ℕ → Dialog Stream Command
unfolding question_menu responded
menu zero = spent
menu (suc fuel) =
    let again = menu fuel in
    do response ← question_menu (suc fuel); responded again (suc fuel) response
