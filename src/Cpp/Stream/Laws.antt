-- ===== src/Cpp/Stream/Laws.antt =====
-- Lines and words read back from a text.
use pds_progetto.Base.{
  Text, All, ◌++◌, ◌≡◌, ◌∷◌, [], ◌==◌, false, ℕ, refl, List, if◌then◌else◌, ◌≢◌, arith, ◌∙◌, ap,
  some,
}
use pds_progetto.Cpp.Stream.{
  lines_of, cut_word, read_word, skip_blanks, word_at, opened_on, as_lines, cut_line, getline,
}
use pds_progetto.Cpp.Numbers.{is_space, to_string}
use pds_progetto.Base.Int.{ℤ, pos}
use pds_progetto.Cpp.Numbers.Digits.{to_string-All}

-- The text has no newline, or no white space.
abbrev pub IsLine : Text → Type 0
IsLine = All (λ c. (c == b'\n') ≡ false)

abbrev pub IsWord : Text → Type 0
IsWord = All (λ c. is_space c ≡ false)

lines_of-newline : (rest : Text) → lines_of (b'\n' ∷ rest) ≡ [] ∷ lines_of rest
unfolding lines_of
lines_of-newline rest = first_line (lines_of rest)
  where
    first_line :
        (lines : List Text)
        → elim lines [
          | [] ↦ if b'\n' == b'\n' then [] ∷ [] else (b'\n' ∷ []) ∷ []
          | line ∷ more ↦ if b'\n' == b'\n' then [] ∷ line ∷ more else (b'\n' ∷ line) ∷ more
        ]
          ≡ [] ∷ lines
    first_line [] = refl
    first_line (line ∷ more) = refl

lines_of_nil : lines_of [] ≡ []
unfolding lines_of
lines_of_nil = refl

lines_of-line :
    (line rest : Text) → IsLine line → lines_of (line ++ b'\n' ∷ rest) ≡ line ∷ lines_of rest
unfolding lines_of
lines_of-line [] rest h = lines_of-newline rest
lines_of-line (c ∷ line) rest (other, h) = rw (lines_of-line line rest h, lines_of, other) refl

cut_word-IsWord : (w : Text) → IsWord w → cut_word w ≡ (w, [])
unfolding cut_word
cut_word-IsWord [] h = refl
cut_word-IsWord (c ∷ w) (plain, h) = rw (plain, cut_word-IsWord w h, cut_word) refl

-- `>>` of a word behind one space.
read_word_lem :
    (old : Text) (c : ℕ) (w : Text)
    → IsWord (c ∷ w)
    → (read_word old (opened_on (32 ∷ c ∷ w))).0 ≡ c ∷ w
unfolding read_word skip_blanks word_at
read_word_lem old c w (plain, h) = rw (plain, skip_blanks, cut_word-IsWord (c ∷ w) (plain, h)) refl

pub read_word-IsWord :
    (old w : Text) → IsWord w → w ≢ [] → (read_word old (opened_on (32 ∷ w))).0 ≡ w
read_word-IsWord old [] h full = absurd (full refl)
read_word-IsWord old (c ∷ w) h full = read_word_lem old c w h

pub IsWord-IsLine : (w : Text) → IsWord w → IsLine w
IsWord-IsLine [] h = tt
IsWord-IsLine (c ∷ w) (plain, h) = (ground arith, IsWord-IsLine w h)

-- The lines that were written are read back.
pub lines_of-as_lines : (lines : List Text) → All IsLine lines → lines_of (as_lines lines) ≡ lines
unfolding as_lines
lines_of-as_lines [] h = lines_of_nil
lines_of-as_lines (line ∷ more) h =
    lines_of-line line (as_lines more) h.0 ∙ ap (λ ls. line ∷ ls) (lines_of-as_lines more h.1)

-- A number that is not negative is written on one line.
pub to_string-IsLine : (v : ℤ) (n : ℕ) → v ≡ pos n → IsLine (to_string v)
to_string-IsLine v n e = rw (e) (to_string-All (λ c. (c == b'\n') ≡ false) (λ d h. ground arith) n)

cut_line-IsLine :
    (line rest : Text) → IsLine line → cut_line (line ++ b'\n' ∷ rest) ≡ (line, some rest)
unfolding cut_line
cut_line-IsLine [] rest h = refl
cut_line-IsLine (c ∷ line) rest (other, h) = rw (other, cut_line-IsLine line rest h) refl

-- `getline` takes a line that has its newline.
pub getline-line :
    (old line rest : Text)
    → IsLine line
    → getline old (opened_on (line ++ b'\n' ∷ rest)) ≡ (line, opened_on rest)
unfolding getline
getline-line old line rest h = let cut = cut_line-IsLine line rest h in rw (cut) rw (cut) refl
