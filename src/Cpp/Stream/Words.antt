-- ===== src/Cpp/Stream/Words.antt =====
-- The words of a text, and what `>>` of a string reads of them.
use pds_progetto.Base.{
  refl, ℕ, Text, List, ◌≡◌, ◌∷◌, false, true, if◌then◌else◌, Bool-cases, [], inl, inr, is_empty,
  arith, sym,
}
use pds_progetto.Cpp.Stream.{cut_word, skip_blanks, Stream, word_at, read_word}
use pds_progetto.Cpp.Numbers.{is_space}

abbrev onto : ℕ → List Text → List Text
onto c [] = (c ∷ []) ∷ []
onto c (w ∷ ws) = (c ∷ w) ∷ ws

-- The words of a text that begins with a byte of a word, from those of the bytes behind it.
abbrev joined : ℕ → Text → List Text → List Text
joined c [] ws = (c ∷ []) ∷ ws
joined c (d ∷ s) ws = if is_space d then (c ∷ []) ∷ ws else onto c ws

unfoldable pub words_of : Text → List Text
words_of [] = []
words_of (c ∷ s) = let ws = words_of s in if is_space c then ws else joined c s ws

words_of-cut_word :
    (c : ℕ) (s : Text)
    → is_space c ≡ false
    → words_of (c ∷ s) ≡ (cut_word (c ∷ s)).0 ∷ words_of (cut_word (c ∷ s)).1
unfolding words_of cut_word
words_of-cut_word c [] plain = rw (plain, joined) refl
words_of-cut_word c (d ∷ s) plain = elim (Bool-cases (is_space d)) [
  | inl e ↦ rw (plain, e) rw (e) refl
  | inr e ↦
      (let rest = words_of-cut_word d s e in let rest = rw e at rest in rw (plain, e, rest) refl)
]

words_of-space : (c : ℕ) (s : Text) → is_space c ≡ true → words_of (c ∷ s) ≡ words_of s
unfolding words_of
words_of-space c s e = rw (e) refl

words_of-skip_blanks : (s : Text) → words_of (skip_blanks s) ≡ words_of s
unfolding skip_blanks
words_of-skip_blanks [] = refl
words_of-skip_blanks (c ∷ s) = elim (Bool-cases (is_space c)) [
  | inl e ↦ (let rest = words_of-skip_blanks s in rw (e, words_of-space c s e) rest)
  | inr e ↦ rw (e) refl
]

-- A stream that is not at its end, or has nothing left.
abbrev pub IsOpen : Stream → Type 0
IsOpen s = (s.failed ≡ false) × ((s.eof ≡ true) → s.text ≡ [])

abbrev IsStart : Text → Type 0
IsStart [] = Unit {0}
IsStart (c ∷ s) = is_space c ≡ false

skip_blanks-IsStart : (s : Text) → IsStart (skip_blanks s)
unfolding skip_blanks
skip_blanks-IsStart [] = tt
skip_blanks-IsStart (c ∷ s) = elim (Bool-cases (is_space c)) [
  | inl e ↦ (let rest = skip_blanks-IsStart s in rw (e) rest)
  | inr e ↦ rw (e) e
]

-- What `>>` does behind the blanks, in words.
abbrev pub Reads : Text → Text × Stream → List Text → Type 0
Reads old (word, s) [] = (word ≡ old) × (s.failed ≡ true)
Reads old (word, s) (w ∷ ws) = (word ≡ w) × (IsOpen s × (words_of s.text ≡ ws))

is_empty-nil : (s : Text) → is_empty s ≡ true → s ≡ []
is_empty-nil [] e = refl
is_empty-nil (c ∷ s) e = absurd (ground arith)

word_at-Reads : (old s : Text) → IsStart s → Reads old (word_at old s) (words_of s)
unfolding word_at words_of
word_at-Reads old [] h = (refl, refl)
word_at-Reads old (c ∷ s) h =
    rw (words_of-cut_word c s h) (refl, ((refl, is_empty-nil (cut_word (c ∷ s)).1), refl))

pub words_of_nil : words_of [] ≡ []
unfolding words_of
words_of_nil = refl

pub read_word-Reads :
    (old : Text) (s : Stream) → IsOpen s → Reads old (read_word old s) (words_of s.text)
unfolding read_word
read_word-Reads old s (fine, last) = elim (Bool-cases s.eof) [
  | inl e ↦ rw (last e, words_of_nil, e) (refl, refl)
  | inr e ↦
      (let goal = word_at-Reads old (skip_blanks s.text) (skip_blanks-IsStart s.text) in
        rw (sym (words_of-skip_blanks s.text), e, fine) goal)
]
