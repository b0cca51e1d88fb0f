-- ===== src/Cpp/Stream.antt =====
-- `std::istream` over a text: the state bits, `getline`, `>>` of a string, `ignore` and `clear`.
pub mod Laws
pub mod Words
use pds_progetto.Base.{
  ◌++◌, Text, Bool, if◌then◌else◌, false, not, Option, some, ◌∷◌, true, List, [], ◌&&◌, none,
  is_empty, ◌==◌,
}
use pds_progetto.Cpp.Numbers.{is_space}

pub record Stream : Type 0 where
  pub text : Text
  pub eof : Bool
  pub failed : Bool

abbrev pub good : Stream → Bool
good s = not s.eof && not s.failed

-- A stream that has all of the text to read.
abbrev pub opened_on : Text → Stream
opened_on text = record { text = text; eof = false; failed = false }

-- The bytes before the first newline, and those behind it if there is one.
unfoldable pub cut_line : Text → Text × Option Text
cut_line [] = ([], none)
cut_line (c ∷ s) =
    let (line, rest) = cut_line s in if c == b'\n' then ([], some s) else (c ∷ line, rest)

-- `std::getline(s, old)`: the string afterwards.
unfoldable pub getline : Text → Stream → Text × Stream
unfolding cut_line
getline old s =
    if good s
    then (let (line, rest) = cut_line s.text in
        elim rest [
          | some text ↦ (line, record s { text = text })
          | none ↦ (line, record { text = []; eof = true; failed = is_empty line })
        ])
    else (old, record s { failed = true })

unfoldable pub skip_blanks : Text → Text
skip_blanks [] = []
skip_blanks (c ∷ s) = let rest = skip_blanks s in if is_space c then rest else c ∷ s

-- The bytes before the first white space, and the rest.
unfoldable pub cut_word : Text → Text × Text
cut_word [] = ([], [])
cut_word (c ∷ s) =
    let (word, rest) = cut_word s in if is_space c then ([], c ∷ s) else (c ∷ word, rest)

word_at : Text → Text → Text × Stream
unfolding cut_word
word_at old [] = (old, record { text = []; eof = true; failed = true })
word_at old (c ∷ s) =
    let (word, rest) = cut_word (c ∷ s) in
    (word, record { text = rest; eof = is_empty rest; failed = false })

-- `s >> old` of a string.
unfoldable pub read_word : Text → Stream → Text × Stream
unfolding word_at skip_blanks
read_word old s =
    if good s then word_at old (skip_blanks s.text) else (old, record s { failed = true })

-- `ignore(1)`.
unfoldable pub ignore_one : Stream → Stream
ignore_one s =
    if good s
    then elim (s.text) [ [] ↦ record s { eof = true } | c ∷ rest ↦ record s { text = rest } ]
    else record s { failed = true }

-- `clear()`.
abbrev pub clear : Stream → Stream
clear s = record s { eof = false; failed = false }

-- The lines of `while (getline(s, line))`.
unfoldable pub lines_of : Text → List Text
lines_of [] = []
lines_of (c ∷ s) = elim (lines_of s) [
  | [] ↦ if c == b'\n' then [] ∷ [] else (c ∷ []) ∷ []
  | line ∷ more ↦ if c == b'\n' then [] ∷ line ∷ more else (c ∷ line) ∷ more
]

-- What `<< line << std::endl` writes, one line after the other.
unfoldable pub as_lines : List Text → Text
as_lines [] = []
as_lines (line ∷ more) = line ++ b'\n' ∷ as_lines more
