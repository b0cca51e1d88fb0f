-- ===== src/Cpp/Numbers.antt =====
-- Numbers as text, the way the standard library writes and reads them: `std::to_string`,
-- `std::stoi`, and `<<` and `>>` of integers in base 10 and 16.
pub mod RoundTrip
pub mod Digits
use pds_progetto.Base.{
  codes, ℕ, zero, suc, ◌+◌, ◌-◌, ◌*◌, ◌/◌, ◌%◌, ◌^◌, ◌≤◌, ◌<◌, Text, Bool, true, false, Option,
  none, some, List, [], ◌∷◌, ◌++◌, ◌≡◌, refl, ap, ◌∙◌, ◌==◌, ltb, leb, ◌&&◌, ◌||◌, if◌then◌else◌,
  length, replicate, All, arith, length-append, length-replicate,
}
use pds_progetto.Base.Int.{ℤ, pos, negsuc}
use pds_progetto.Cpp.Result.{Result, ok, throws, invalid_argument, out_of_range}

abbrev pub digit_char : ℕ → ℕ
digit_char d = if ltb d 10 then d + 48 else d + 87

abbrev pub in_base : ℕ → ℕ → Option ℕ
in_base base d = if ltb d base then some d else none

-- The value of a digit character; upper and lower case letters stand for 10 to 15.
abbrev pub digit_value : ℕ → ℕ → Option ℕ
digit_value base c =
    if leb b'0' c && leb c b'9'
    then in_base base (c - 48)
    else if leb b'a' c && leb c b'f'
    then in_base base (c - 87)
    else if leb b'A' c && leb c b'F'
    then in_base base (c - 55)
    else none

-- The digits of `n` on fuel; a fuel of `suc n` is enough.
digits : ℕ → ℕ → ℕ → Text
digits base zero n = []
digits base (suc f) n =
    let more = digits base f (n / base) ++ digit_char (n % base) ∷ [] in
    if ltb n base then digit_char n ∷ [] else more

-- `<<` of an unsigned number.
unfoldable pub show : ℕ → ℕ → Text
unfolding digits
show base n = digits base (suc n) n

-- `<<` of an `int` in base 10, and `std::to_string`.
unfoldable pub to_string : ℤ → Text
unfolding show
to_string (pos n) = show 10 n
to_string (negsuc n) = b'-' ∷ show 10 (suc n)

-- `std::setw(w)`, which fills on the left with spaces and cuts nothing.
unfoldable pub setw : ℕ → Text → Text
setw w s = replicate (w - length s) 32 ++ s

abbrev pub is_space : ℕ → Bool
is_space c = c == 32 || (leb 9 c && leb c 13)

skip_spaces : Text → Text
skip_spaces [] = []
skip_spaces (c ∷ s) = let rest = skip_spaces s in if is_space c then rest else c ∷ s

-- The number that the longest run of digits stands for, and what follows it.
read_digits : ℕ → ℕ → Text → ℕ × Text
read_digits base acc [] = (acc, [])
read_digits base acc (c ∷ s) = elim (digit_value base c) [
  | none ↦ (acc, c ∷ s)
  | some d ↦ read_digits base (acc * base + d) s
]

-- At least one digit is wanted.
read_number : ℕ → Text → Option (ℕ × Text)
unfolding read_digits
read_number base [] = none
read_number base (c ∷ s) = elim (digit_value base c) [
  | none ↦ none
  | some d ↦ some (read_digits base d s)
]

abbrev pub with_sign : Bool → Option (ℕ × Text) → Option (Bool × ℕ × Text)
with_sign minus none = none
with_sign minus (some (n, rest)) = some (minus, n, rest)

read_signed : ℕ → Text → Option (Bool × ℕ × Text)
unfolding read_number
read_signed base [] = none
read_signed base (c ∷ s) =
    if c == b'-'
    then with_sign true (read_number base s)
    else if c == b'+'
    then with_sign false (read_number base s)
    else with_sign false (read_number base (c ∷ s))

-- What `>>` and `std::stoi` take from the text: sign, magnitude and the rest.
unfoldable pub scan : ℕ → Text → Option (Bool × ℕ × Text)
unfolding skip_spaces read_signed
scan base s = read_signed base (skip_spaces s)

abbrev pub signed : Bool → ℕ → ℤ
signed minus zero = pos 0
signed true (suc n) = negsuc n
signed false (suc n) = pos (suc n)

-- The range of `int`.
abbrev pub fits_int : Bool → ℕ → Bool
fits_int true n = leb n 2147483648
fits_int false n = ltb n 2147483648

abbrev pub to_int : Option (Bool × ℕ × Text) → Result ℤ
to_int none = throws invalid_argument
to_int (some (minus, n, rest)) =
    if fits_int minus n then ok (signed minus n) else throws out_of_range

-- `std::stoi`.
unfoldable pub stoi : Text → Result ℤ
unfolding scan
stoi s = to_int (scan 10 s)
