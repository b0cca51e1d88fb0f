-- ===== src/Console/Answers.antt =====
-- The yes or no questions of client/ConfigSetting.cpp and server/ServerConfigSetting.cpp.
use pds_progetto.Cpp.Dialog.{◌>>=◌, pure}
use pds_progetto.Base.{
  refl, Text, List, Bool, same_text, codes, ◌≡◌, ◌&&◌, true, ◌||◌, ◌∷◌, same_text_iff, arith, map,
  if◌then◌else◌, false, [], some, ℕ, length, ◌<◌, suc, zero, Bool-cases, inl, inr, Option,
}
use pds_progetto.Cpp.Result.{Result, throws, runtime_error, ok}
use pds_progetto.Console.{
  is_answer, starts_y, to_lower, yesno_from, next_word, check_answer_ok, ◌>>=◌, pure,
  question_yesno,
}
use pds_progetto.Cpp.Dialog.{fail}
use pds_progetto.Cpp.Stream.{Stream, read_word, opened_on}
use pds_progetto.Cpp.Stream.Words.{IsOpen, words_of, read_word-Reads}

abbrev pub says_yes : Text → Bool
says_yes answer = same_text answer (codes "y") || same_text answer (codes "yes")

abbrev pub says_no : Text → Bool
says_no answer =
    same_text answer (codes "n")
    || same_text answer (codes "no")
    || same_text answer (codes "q")
    || same_text answer (codes "quit")

-- What the words that are typed answer to a question: the first of them that is an answer.
unfoldable pub first_answer : List Text → Result Bool
first_answer [] = throws runtime_error
first_answer (typed ∷ more) =
    let rest = first_answer more in
    let answer = map to_lower typed in
    if says_yes answer then ok true else if says_no answer then ok false else rest

-- An answer starts with y exactly if it means yes.
starts_y_lem : (w t : Text) → same_text w t ≡ true → starts_y w ≡ starts_y t
starts_y_lem w t e = rw ((same_text_iff w t).0 e) refl

abbrev pub Judges : Text → Bool × Bool → Type 0
Judges w (valid, result) = (valid ≡ (says_yes w || says_no w)) × (result ≡ says_yes w)

result_lem :
    (y n yes_ no_ q quit s : Bool)
    → (y ≡ true → s ≡ true)
    → (yes_ ≡ true → s ≡ true)
    → (n ≡ true → s ≡ false)
    → (no_ ≡ true → s ≡ false)
    → (q ≡ true → s ≡ false)
    → (quit ≡ true → s ≡ false)
    → ((y || n || yes_ || no_ || q || quit) && s) ≡ (y || yes_)
result_lem y n yes_ no_ q quit s hy hyes hn hno hq hquit = ground arith

valid_lem :
    (y n yes_ no_ q quit : Bool)
    → (y || n || yes_ || no_ || q || quit) ≡ ((y || yes_) || (n || no_ || q || quit))
valid_lem y n yes_ no_ q quit = ground arith

pub judges : (w : Text) → Judges w (is_answer w, is_answer w && starts_y w)
judges w =
    let bit : Text → Bool = same_text w in
    (
      valid_lem (bit (codes "y")) (bit (codes "n")) (bit (codes "yes")) (bit (codes "no"))
          (bit (codes "q")) (bit (codes "quit")),
      result_lem (bit (codes "y")) (bit (codes "n")) (bit (codes "yes")) (bit (codes "no"))
          (bit (codes "q")) (bit (codes "quit")) (starts_y w) (starts_y_lem w (codes "y"))
          (starts_y_lem w (codes "yes")) (starts_y_lem w (codes "n")) (starts_y_lem w (codes "no"))
          (starts_y_lem w (codes "q")) (starts_y_lem w (codes "quit")),
    )

-- The words behind the first answer.
unfoldable pub behind_answer : List Text → List Text
behind_answer [] = []
behind_answer (typed ∷ more) =
    let rest = behind_answer more in
    let answer = map to_lower typed in
    if says_yes answer then more else if says_no answer then more else rest

-- The words that a result leaves, if it is no exception.
unfoldable pub Left : {A : Type 0} → Result A → List Text → Stream → Type 0
Left (ok a) more cin = IsOpen cin × (words_of cin.text ≡ more)
Left (throws e) more cin = Unit

abbrev pub Ends :
    {S A : Type 0} → (S → Option (Result A × Stream)) → S → Result A → List Text → Type 0
Ends ask cin r more = (cin' : Stream) × ((ask cin ≡ some (r, cin')) × Left r more cin')

-- What follows the word that was read.
judged : ℕ → Text × Stream → Option (Result Bool × Stream)
judged fuel (typed, cin) = elim (cin.failed) [
  | true ↦ some (throws runtime_error, cin)
  | false ↦
      (let answer = map to_lower typed in
        elim (is_answer answer) [
          | true ↦ some (ok (is_answer answer && starts_y answer), cin)
          | false ↦ yesno_from fuel answer cin
        ])
]

judged_lem :
    (fuel : ℕ) (old : Text) (cin : Stream)
    → yesno_from (suc fuel) old cin ≡ judged fuel (read_word old cin)
unfolding judged yesno_from next_word ◌>>=◌ fail pure check_answer_ok
judged_lem fuel old cin = elim (Bool-cases ((read_word old cin).1.failed)) [
  | inl bad ↦ rw (yesno_from, next_word, ◌>>=◌, judged, bad) refl
  | inr fine ↦ elim (Bool-cases (is_answer (map to_lower (read_word old cin).0))) [
    | inl answer ↦ rw (yesno_from, next_word, ◌>>=◌, judged, fine, check_answer_ok, answer) refl
    | inr other ↦ rw (yesno_from, next_word, ◌>>=◌, judged, fine, check_answer_ok, other) refl
  ]
]

judged-word :
    (fuel : ℕ) (typed : Text) (cin : Stream) (r : Result Bool) (here more : List Text)
    → IsOpen cin
    → words_of cin.text ≡ here
    → Ends (yesno_from fuel (map to_lower typed)) cin r more
    → Ends
        (judged fuel)
        (typed, cin)
        (if says_yes (map to_lower typed)
          then ok true
          else if says_no (map to_lower typed)
          then ok false
          else r)
        (if says_yes (map to_lower typed)
          then here
          else if says_no (map to_lower typed)
          then here
          else more)
unfolding judged Left
judged-word fuel typed cin r here more fine words (cin', (rest, left)) =
    let answer = map to_lower typed in
    let (valid, says) = judges answer in
    elim (Bool-cases (says_yes answer)) [
      | inl yes_ ↦
          (let says = rw (valid, yes_) at says in
            (cin, (simp (fine.0, valid, yes_, says), rw (yes_) (fine, words))))
      | inr not_yes ↦ elim (Bool-cases (says_no answer)) [
        | inl no_ ↦
            (let says = rw (valid, not_yes, no_) at says in
              (cin, (simp (fine.0, valid, not_yes, no_, says), rw (not_yes, no_) (fine, words))))
        | inr other ↦ (cin', (simp (fine.0, valid, not_yes, other, rest), rw (not_yes, other) left))
      ]
    ]

pub yesno_from-words :
    (words : List Text) (fuel : ℕ) (old : Text) (cin : Stream)
    → IsOpen cin
    → words_of cin.text ≡ words
    → length words < fuel
    → Ends (yesno_from fuel old) cin (first_answer words) (behind_answer words)
unfolding first_answer behind_answer judged Left
yesno_from-words words zero old cin fine e enough = absurd (omega arith)
yesno_from-words [] (suc fuel) old cin fine e enough =
    let read = read_word-Reads old cin fine in
    let read = rw e at read in
    ((read_word old cin).1, (rw (judged_lem fuel old cin, judged, read.1) refl, tt))
yesno_from-words (w ∷ words) (suc fuel) old cin fine e enough =
    let read = read_word-Reads old cin fine in
    let read = rw e at read in
    let next = (read_word old cin).1 in
    let rest = yesno_from-words words fuel (map to_lower w) next read.1.0 read.1.1 (omega arith) in
    let (last, (done, left)) =
      judged-word fuel w next (first_answer words) words (behind_answer words) read.1.0 read.1.1
        rest in
    (last, (rw (judged_lem fuel old cin, read.0) done, left))

-- With more fuel than the words that are typed, the question ends, and its answer is that of the
-- first word that is one.
pub question_yesno-first_answer :
    (typed : Text) (fuel : ℕ)
    → length (words_of typed) < fuel
    → (cin : Stream) × (question_yesno fuel (opened_on typed)
        ≡ some (first_answer (words_of typed), cin))
unfolding question_yesno
question_yesno-first_answer typed fuel enough =
    let (cin, (done, left)) =
      yesno_from-words (words_of typed) fuel [] (opened_on typed) (refl, λ e. absurd (ground arith))
        refl enough in
    (cin, done)
