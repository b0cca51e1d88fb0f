-- ===== src/Comm/Message/Header.antt =====
-- The header of a message: the part of `Message::send` that writes it and `Message::build_header`.
-- The prefix `0x`, which `>> std::hex` would accept and no header has, is not modelled.
pub mod RoundTrip
use mathlib.Core.List.{append_assoc}
use pds_progetto.Base.{
  ℕ, zero, suc, ◌+◌, ◌-◌, ◌*◌, ◌/◌, ◌%◌, ◌^◌, ◌≤◌, ◌<◌, Text, Bool, true, false, Option, none, some,
  List, [], ◌∷◌, ◌++◌, ◌≡◌, ◌≢◌, refl, sym, ap, ◌∙◌, inl, inr, ◌==◌, ltb, leb, if◌then◌else◌,
  length, take, replicate, arith, Bool-cases, length-append, length-replicate, take_all,
}
use pds_progetto.Base.Int.{ℤ, pos, negsuc}
use pds_progetto.Cpp.Result.{Result, ok, throws, invalid_argument, ◌>>=◌}
use pds_progetto.Cpp.Numbers.{show, to_string, setw, scan, signed, fits_int}
use pds_progetto.Comm.Message.{MessageType, code_of, cast_code}

abbrev code_length : ℕ
code_length = 4

abbrev length_length : ℕ
length_length = 8

-- `header_data_`.
unfoldable pub header_data : MessageType → ℕ → Text
unfolding setw to_string show code_of
header_data code content_length =
    setw code_length (to_string (code_of code)) ++ setw length_length (show 16 content_length)

-- The first of the two buffers that `send` returns: at most 12 bytes.
unfoldable pub header_buffer : MessageType → ℕ → Text
unfolding header_data
header_buffer code content_length =
    take (code_length + length_length) (header_data code content_length)

-- A read from the stream that fails makes `build_header` throw.
abbrev read_code : Option (Bool × ℕ × Text) → Result (ℤ × Text)
read_code none = throws invalid_argument
read_code (some (minus, n, rest)) =
    if fits_int minus n then ok (signed minus n, rest) else throws invalid_argument

-- `>>` of a `std::size_t`: a minus sign negates modulo 2^64.
abbrev read_length : Option (Bool × ℕ × Text) → Result ℕ
read_length none = throws invalid_argument
read_length (some (minus, n, rest)) =
    if ltb n (2 ^ 64)
    then ok (if minus then (2 ^ 64 - n) % 2 ^ 64 else n)
    else throws invalid_argument

read_rest : ℤ × Text → Result (MessageType × ℕ)
unfolding scan cast_code
read_rest (n, rest) = do
  content_length ← read_length (scan 16 rest)
  ok (cast_code n, content_length)

-- `build_header`: the code and the length of the content, for which a buffer is allocated.
unfoldable pub build_header : Text → Result (MessageType × ℕ)
unfolding read_rest scan
build_header buffer = do code ← read_code (scan 10 buffer); read_rest code
