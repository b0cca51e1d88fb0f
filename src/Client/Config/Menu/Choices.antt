-- ===== src/Client/Config/Menu/Choices.antt =====
-- What the words that are typed choose in the menu of client/ConfigSetting.cpp.
use pds_progetto.Console.{check_answer_ok, to_lower, is_answer}
use pds_progetto.Base.{
  refl, ◌∙◌, Text, Bool, ℕ, Option, ◌≡◌, ◌||◌, true, false, if◌then◌else◌, some, arith, map, codes,
  same_text_iff, none, suc, Bool-cases, List, inl, ◌∷◌, inr, [], length, ◌<◌, ap, Option-cases,
  zero,
}
use pds_progetto.Base.Equality.{same_text}
use pds_progetto.Cpp.Dialog.{◌>>=◌, pure, fail}
use pds_progetto.Console.Answers.{says_yes, says_no, judges, Ends, Left}
use pds_progetto.Base.Int.{ℤ, pos}
use pds_progetto.Client.Config.Menu.{
  question_menu_from, check_answer_ok, first_is_digit, response_to,
}
use pds_progetto.Cpp.Result.{Result, ok, throws, runtime_error, Result-cases}
use pds_progetto.Cpp.Stream.{Stream, read_word}
use pds_progetto.Console.{next_word}
use pds_progetto.Cpp.Numbers.{stoi}
use pds_progetto.Cpp.Stream.Words.{IsOpen, words_of, read_word-Reads}

-- The answers of the menu.
pub data Choice : Type 0 where
  exits synchronizes restores : Choice

abbrev pub number_of : Choice → ℤ
number_of exits = pos 0
number_of synchronizes = pos 1
number_of restores = pos 2

-- Any answer of yes or no exits.
abbrev pub choice_of : Text → Option Choice
choice_of a =
    if says_yes a || says_no a
    then some exits
    else if same_text a (codes "1")
    then some synchronizes
    else if same_text a (codes "2")
    then some restores
    else none

first_is_digit_lem : (w t : Text) → same_text w t ≡ true → first_is_digit w ≡ first_is_digit t
first_is_digit_lem w t e = rw ((same_text_iff w t).0 e) refl

digit_lem :
    (y yes_ n no_ q quit d : Bool)
    → (y ≡ true → d ≡ false)
    → (yes_ ≡ true → d ≡ false)
    → (n ≡ true → d ≡ false)
    → (no_ ≡ true → d ≡ false)
    → (q ≡ true → d ≡ false)
    → (quit ≡ true → d ≡ false)
    → ((y || yes_) || (n || no_ || q || quit)) ≡ true
    → d ≡ false
digit_lem y yes_ n no_ q quit d hy hyes hn hno hq hquit h = ground arith

response_to-exits : (a : Text) → (says_yes a || says_no a) ≡ true → response_to a ≡ ok (pos 0)
unfolding response_to
response_to-exits a h =
    let bit : Text → Bool = same_text a in
    let plain =
      digit_lem (bit (codes "y")) (bit (codes "yes")) (bit (codes "n")) (bit (codes "no"))
        (bit (codes "q")) (bit (codes "quit")) (first_is_digit a) (first_is_digit_lem a (codes "y"))
        (first_is_digit_lem a (codes "yes")) (first_is_digit_lem a (codes "n"))
        (first_is_digit_lem a (codes "no")) (first_is_digit_lem a (codes "q"))
        (first_is_digit_lem a (codes "quit")) h in
    rw (plain) refl

response_to-number :
    (a t : Text) (r : Result ℤ) → same_text a t ≡ true → response_to t ≡ r → response_to a ≡ r
response_to-number a t r e h = rw ((same_text_iff a t).0 e) h

-- What follows the word that was read.
judged : ℕ → Text × Stream → Option (Result ℤ × Stream)
judged fuel (typed, cin) = elim (cin.failed) [
  | true ↦ some (throws runtime_error, cin)
  | false ↦
      (let a = map to_lower typed in
        elim (is_answer a || same_text a (codes "1") || same_text a (codes "2")) [
          | true ↦ elim (response_to a) [
            | ok n ↦ some (ok n, cin)
            | throws e ↦ some (throws e, cin)
          ]
          | false ↦ question_menu_from fuel a cin
        ])
]

judged_lem :
    (fuel : ℕ) (old : Text) (cin : Stream)
    → question_menu_from (suc fuel) old cin ≡ judged fuel (read_word old cin)
unfolding judged question_menu_from next_word ◌>>=◌ fail pure check_answer_ok
judged_lem fuel old cin =
    let a = map to_lower (read_word old cin).0 in
    elim (Bool-cases ((read_word old cin).1.failed)) [
      | inl bad ↦ rw (question_menu_from, next_word, ◌>>=◌, judged, bad) refl
      | inr fine ↦
          elim (Bool-cases (is_answer a || same_text a (codes "1") || same_text a (codes "2"))) [
            | inr other ↦
                rw (question_menu_from, next_word, ◌>>=◌, judged, fine, check_answer_ok, other) refl
            | inl answer ↦ elim (Result-cases (response_to a)) [
              | inl (n, r) ↦
                  rw
                    (question_menu_from, next_word, ◌>>=◌, judged, fine, check_answer_ok, answer, r)
                    refl
              | inr (e, r) ↦
                  rw
                    (question_menu_from, next_word, ◌>>=◌, judged, fine, check_answer_ok, answer, r)
                    refl
            ]
          ]
    ]

stoi_one : response_to (codes "1") ≡ ok (pos 1)
unfolding stoi response_to
stoi_one = refl

stoi_two : response_to (codes "2") ≡ ok (pos 2)
unfolding stoi response_to
stoi_two = refl

judged-choice :
    (fuel : ℕ) (typed : Text) (cin : Stream)
    → cin.failed ≡ false
    → judged fuel (typed, cin) ≡ elim (choice_of (map to_lower typed)) [
      | some c ↦ some (ok (number_of c), cin)
      | none ↦ question_menu_from fuel (map to_lower typed) cin
    ]
unfolding judged
judged-choice fuel typed cin fine =
    let a = map to_lower typed in
    let (valid, says) = judges a in
    elim (Bool-cases (says_yes a || says_no a)) [
      | inl v ↦ (let r = response_to-exits a v in simp (fine, valid, v) (rw (r) refl))
      | inr v ↦ elim (Bool-cases (same_text a (codes "1"))) [
        | inl one ↦
            (let r = response_to-number a (codes "1") (ok (pos 1)) one stoi_one in
              simp (fine, valid, v, one) (rw (r) refl))
        | inr not_one ↦ elim (Bool-cases (same_text a (codes "2"))) [
          | inl two ↦
              (let r = response_to-number a (codes "2") (ok (pos 2)) two stoi_two in
                simp (fine, valid, v, not_one, two) (rw (r) refl))
          | inr not_two ↦ simp (fine, valid, v, not_one, not_two)
        ]
      ]
    ]

-- The first choice, and the words behind it.
unfoldable pub first_choice : List Text → Option Choice
first_choice [] = none
first_choice (w ∷ ws) =
    let rest = first_choice ws in
    elim (choice_of (map to_lower w)) [ some c ↦ some c | none ↦ rest ]

unfoldable pub behind_choice : List Text → List Text
behind_choice [] = []
behind_choice (w ∷ ws) =
    let rest = behind_choice ws in elim (choice_of (map to_lower w)) [ some c ↦ ws | none ↦ rest ]

abbrev pub answer_with : Option Choice → Result ℤ
answer_with none = throws runtime_error
answer_with (some c) = ok (number_of c)

pub first_choice-some :
    (w : Text) (ws : List Text) (c : Choice)
    → choice_of (map to_lower w) ≡ some c
    → (first_choice (w ∷ ws) ≡ some c) × (behind_choice (w ∷ ws) ≡ ws)
unfolding first_choice behind_choice
first_choice-some w ws c e = (rw (first_choice, e) refl, rw (behind_choice, e) refl)

pub first_choice-none :
    (w : Text) (ws : List Text)
    → choice_of (map to_lower w) ≡ none
    → (first_choice (w ∷ ws) ≡ first_choice ws) × (behind_choice (w ∷ ws) ≡ behind_choice ws)
unfolding first_choice behind_choice
first_choice-none w ws e = (rw (first_choice, e) refl, rw (behind_choice, e) refl)

pub question_menu_from-words :
    (words : List Text) (fuel : ℕ) (old : Text) (cin : Stream)
    → IsOpen cin
    → words_of cin.text ≡ words
    → length words < fuel
    → Ends
        (question_menu_from fuel old)
        cin
        (answer_with (first_choice words))
        (behind_choice words)
unfolding first_choice behind_choice Left judged
question_menu_from-words words zero old cin fine e enough = absurd (omega arith)
question_menu_from-words [] (suc fuel) old cin fine e enough =
    let read = rw e at (read_word-Reads old cin fine) in
    ((read_word old cin).1, (rw (judged_lem fuel old cin, judged, read.1) refl, tt))
question_menu_from-words (w ∷ words) (suc fuel) old cin fine e enough =
    let read = rw e at (read_word-Reads old cin fine) in
    let next = (read_word old cin).1 in
    let (last, (done, left)) =
      question_menu_from-words words fuel (map to_lower w) next read.1.0 read.1.1 (omega arith) in
    let step =
      judged_lem fuel old cin
      ∙ ap (λ w. judged fuel (w, next)) read.0
      ∙ judged-choice fuel w next read.1.0.0 in
    elim (Option-cases (choice_of (map to_lower w))) [
      | inr (c, chosen) ↦
          (let (first, behind) = first_choice-some w words c chosen in
            rw (first, behind) (next, (rw (step, chosen) refl, (read.1.0, read.1.1))))
      | inl other ↦
          (let (first, behind) = first_choice-none w words other in
            rw (first, behind) (last, (rw (step, other) done, left)))
    ]
