-- ===== src/Client/Config/Menu/Machine.antt =====
-- `menu` of client/ConfigSetting.cpp as a machine that reads one word after the other.
use pds_progetto.Base.{
  refl, List, Text, Option, ◌≡◌, Bool, ◌∷◌, map, some, true, Bool-cases, none, false, inl,
  Option-cases, inr, if◌then◌else◌, [], length, ◌<◌, ◌≤◌, ℕ, arith, suc, zero,
}
use pds_progetto.Cpp.Dialog.{Dialog, ◌>>=◌, pure, after-ok, after-throws}
use pds_progetto.Console.{question_yesno, to_lower}
use pds_progetto.Console.Answers.{
  says_yes, says_no, Left, first_answer, behind_answer, yesno_from-words,
}
use pds_progetto.Client.Config.Menu.{
  Command, end, normal, restore, confirmed, menu, question_menu, responded,
}
use pds_progetto.Client.Config.Menu.Choices.{
  first_choice, behind_choice, Choice, exits, choice_of, synchronizes, restores, answer_with,
  question_menu_from-words,
}
use pds_progetto.Cpp.Result.{Result, throws, runtime_error, ok}
use pds_progetto.Cpp.Stream.{Stream, opened_on}
use pds_progetto.Cpp.Stream.Words.{IsOpen, words_of}

-- What the next word is for.
pub data Mode : Type 0 where
  choosing : Mode
  confirming : Command → Mode

unfoldable pub chosen : List Text → Mode → Result Command
chosen [] mode = throws runtime_error
chosen (w ∷ ws) choosing =
    let rest = chosen ws in
    elim (choice_of (map to_lower w)) [
      | none ↦ rest choosing
      | some c ↦ elim c [
        | exits ↦ rest (confirming end)
        | synchronizes ↦ ok normal
        | restores ↦ rest (confirming restore)
      ]
    ]
chosen (w ∷ ws) (confirming c) =
    let rest = chosen ws in
    let a = map to_lower w in
    if says_yes a then ok c else if says_no a then rest choosing else rest (confirming c)

-- The machine behind a choice, and behind an answer.
after_choice : List Text → Option Choice → Result Command
after_choice ws none = throws runtime_error
after_choice ws (some exits) = chosen ws (confirming end)
after_choice ws (some synchronizes) = ok normal
after_choice ws (some restores) = chosen ws (confirming restore)

after_answer : Command → List Text → Result Bool → Result Command
after_answer c ws (ok true) = ok c
after_answer c ws (ok false) = chosen ws choosing
after_answer c ws (throws e) = throws e

chosen-choosing :
    (ws : List Text) → chosen ws choosing ≡ after_choice (behind_choice ws) (first_choice ws)
unfolding chosen first_choice behind_choice after_choice
chosen-choosing [] = refl
chosen-choosing (w ∷ ws) = elim (Option-cases (choice_of (map to_lower w))) [
  | inl other ↦
      (let rest = chosen-choosing ws in rw (chosen, first_choice, behind_choice, other) rest)
  | inr (c, e) ↦ rw (chosen, first_choice, behind_choice, e) (by_choice c)
]
  where
    by_choice :
        (c : Choice)
        → elim c [
          | exits ↦ chosen ws (confirming end)
          | synchronizes ↦ ok normal
          | restores ↦ chosen ws (confirming restore)
        ]
          ≡ after_choice ws (some c)
    by_choice exits = refl
    by_choice synchronizes = refl
    by_choice restores = refl

chosen-confirming :
    (c : Command) (ws : List Text)
    → chosen ws (confirming c) ≡ after_answer c (behind_answer ws) (first_answer ws)
unfolding chosen first_answer behind_answer after_answer
chosen-confirming c [] = refl
chosen-confirming c (w ∷ ws) =
    let rest = chosen-confirming c ws in
    let a = map to_lower w in
    elim (Bool-cases (says_yes a)) [
      | inl y ↦ rw (chosen, first_answer, behind_answer, y) refl
      | inr not_y ↦ elim (Bool-cases (says_no a)) [
        | inl n ↦ rw (chosen, first_answer, behind_answer, not_y, n) refl
        | inr other ↦ rw (chosen, first_answer, behind_answer, not_y, other) rest
      ]
    ]

behind_choice-lt :
    (ws : List Text) (c : Choice) → first_choice ws ≡ some c → length (behind_choice ws) < length ws
unfolding first_choice behind_choice
behind_choice-lt [] c e = absurd (ground arith)
behind_choice-lt (w ∷ ws) c e = elim (Option-cases (choice_of (map to_lower w))) [
  | inl other ↦
      (let rest = behind_choice-lt ws c (rw (first_choice, other) at e) in
        rw (behind_choice, other) (omega (arith, rest)))
  | inr (d, is) ↦ rw (behind_choice, is) (omega arith)
]

behind_answer-le : (ws : List Text) → length (behind_answer ws) ≤ length ws
unfolding behind_answer
behind_answer-le [] = omega arith
behind_answer-le (w ∷ ws) =
    let rest = behind_answer-le ws in
    let a = map to_lower w in
    elim (Bool-cases (says_yes a)) [
      | inl y ↦ rw (behind_answer, y) (omega arith)
      | inr not_y ↦ elim (Bool-cases (says_no a)) [
        | inl n ↦ rw (behind_answer, not_y, n) (omega arith)
        | inr other ↦ rw (behind_answer, not_y, other) (omega (arith, rest))
      ]
    ]

-- A dialog that ends with a command.
Gives : Dialog Stream Command → Stream → Result Command → Type 0
Gives ask cin r = (cin' : Stream) × (ask cin ≡ some (r, cin'))

confirmed-Gives :
    (again : Dialog Stream Command) (fuel : ℕ) (c : Command) (ws : List Text) (cin : Stream)
    → IsOpen cin
    → words_of cin.text ≡ ws
    → length ws < fuel
    → ((cin' : Stream)
        → IsOpen cin'
        → words_of cin'.text ≡ behind_answer ws
        → Gives again cin' (chosen (behind_answer ws) choosing))
    → Gives (confirmed again fuel c) cin (chosen ws (confirming c))
unfolding Gives confirmed question_yesno ◌>>=◌ after_answer Left pure
confirmed-Gives again fuel c ws cin fine words enough next =
    let (cin', (done, left)) = yesno_from-words ws fuel [] cin fine words enough in
    rw (chosen-confirming c ws) (judge cin' (first_answer ws) done left)
  where
    judge :
        (cin' : Stream) (r : Result Bool)
        → question_yesno fuel cin ≡ some (r, cin')
        → Left r (behind_answer ws) cin'
        → Gives (confirmed again fuel c) cin (after_answer c (behind_answer ws) r)
    judge cin' (throws e) done left = (cin', after-throws (question_yesno fuel) _ cin done)
    judge cin' (ok true) done left = (cin', after-ok (question_yesno fuel) _ cin done refl)
    judge cin' (ok false) done left =
        let (last, rest) = next cin' left.0 left.1 in
        (last, after-ok (question_yesno fuel) _ cin done rest)

menu-Gives :
    (fuel : ℕ) (words : List Text) (cin : Stream)
    → IsOpen cin
    → words_of cin.text ≡ words
    → length words < fuel
    → Gives (menu fuel) cin (chosen words choosing)
unfolding Gives menu question_menu ◌>>=◌ responded after_choice Left pure
menu-Gives zero words cin fine e enough = absurd (omega arith)
menu-Gives (suc fuel) words cin fine e enough =
    let (cin', (done, left)) = question_menu_from-words words (suc fuel) [] cin fine e enough in
    rw (chosen-choosing words) (
      judge (λ ws u open_ same few. menu-Gives fuel ws u open_ same few) cin' (first_choice words)
        (λ c is. behind_choice-lt words c is) done left)
  where
    judge :
        ((ws : List Text) (u : Stream)
          → IsOpen u
          → words_of u.text ≡ ws
          → length ws < fuel
          → Gives (menu fuel) u (chosen ws choosing))
        → (cin' : Stream) (c : Option Choice)
        → ((d : Choice) → c ≡ some d → length (behind_choice words) < length words)
        → question_menu (suc fuel) cin ≡ some (answer_with c, cin')
        → Left (answer_with c) (behind_choice words) cin'
        → Gives (menu (suc fuel)) cin (after_choice (behind_choice words) c)
    judge again cin' none shorter done left =
        (cin', after-throws (question_menu (suc fuel)) _ cin done)
    judge again cin' (some synchronizes) shorter done left =
        (cin', after-ok (question_menu (suc fuel)) _ cin done refl)
    judge again cin' (some exits) shorter done left =
        let less = shorter exits refl in
        let le = behind_answer-le (behind_choice words) in
        let (last, rest) =
          confirmed-Gives (menu fuel) (suc fuel) end (behind_choice words) cin' left.0 left.1
            (omega (arith, less, enough))
            (λ u open_ same.
              again (behind_answer (behind_choice words)) u open_ same
                (omega (arith, less, le, enough))) in
        (last, after-ok (question_menu (suc fuel)) _ cin done rest)
    judge again cin' (some restores) shorter done left =
        let less = shorter restores refl in
        let le = behind_answer-le (behind_choice words) in
        let (last, rest) =
          confirmed-Gives (menu fuel) (suc fuel) restore (behind_choice words) cin' left.0 left.1
            (omega (arith, less, enough))
            (λ u open_ same.
              again (behind_answer (behind_choice words)) u open_ same
                (omega (arith, less, le, enough))) in
        (last, after-ok (question_menu (suc fuel)) _ cin done rest)

-- With more fuel than the words that are typed, the menu ends, with the command that the machine
-- finds in the words, or with the exception if they are used up before.
pub menu-chosen :
    (typed : Text) (fuel : ℕ)
    → length (words_of typed) < fuel
    → (cin : Stream) × (menu fuel (opened_on typed) ≡ some (chosen (words_of typed) choosing, cin))
unfolding Gives
menu-chosen typed fuel enough =
    menu-Gives fuel (words_of typed) (opened_on typed) (refl, λ e. absurd (ground arith)) refl
      enough
