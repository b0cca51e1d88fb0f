-- ===== src/Cpp/Find.antt =====
-- `std::string::find` and `substr`, as the readers of the configuration files use them, and `>>` of
-- an `int` from a string stream.
pub mod Laws
use pds_progetto.Cpp.Numbers.{scan, fits_int, signed}
use pds_progetto.Base.{
  ℕ, Text, Bool, true, is_empty, Option, if◌then◌else◌, none, ◌∷◌, some, false, ◌||◌, ◌==◌, ◌&&◌,
  [],
}
use pds_progetto.Base.Int.{ℤ, pos, negsuc}
use pds_progetto.Cpp.Stream.{skip_blanks}

unfoldable pub starts_with : Text → Text → Bool
starts_with [] s = true
starts_with (a ∷ word) [] = false
starts_with (a ∷ word) (b ∷ s) = (a == b) && starts_with word s

-- `s.find(word) != npos`.
unfoldable pub contains : Text → Text → Bool
unfolding starts_with
contains word [] = is_empty word
contains word (b ∷ s) = starts_with word (b ∷ s) || contains word s

-- The text behind the first `c`.
unfoldable pub behind : ℕ → Text → Option Text
behind c [] = none
behind c (b ∷ s) = let later = behind c s in if b == c then some s else later

-- `s.substr(s.find(c) + 1)`.
unfoldable pub after_first : ℕ → Text → Text
unfolding behind
after_first c s = elim (behind c s) [ none ↦ s | some rest ↦ rest ]

-- An `int` that does not fit becomes the largest or the smallest one.
abbrev pub clamped : Bool → ℕ → ℤ
clamped minus n =
    if fits_int minus n then signed minus n else if minus then negsuc 2147483647 else pos 2147483647

abbrev pub int_at : ℤ → Text → Option (Bool × ℕ × Text) → ℤ
int_at old [] found = old
int_at old (c ∷ s) none = pos 0
int_at old (c ∷ s) (some (minus, n, rest)) = clamped minus n

-- `std::istringstream(s) >> old`: nothing to read leaves the value, and anything but a number sets 0.
unfoldable pub read_int : ℤ → Text → ℤ
unfolding skip_blanks scan
read_int old s = int_at old (skip_blanks s) (scan 10 s)
