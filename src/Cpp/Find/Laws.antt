-- ===== src/Cpp/Find/Laws.antt =====
-- A word that does not stand in a text, and a number read back.
use mathlib.Core.List.{append-nil}
use pds_progetto.Cpp.Find.{starts_with, contains, read_int, clamped}
use pds_progetto.Base.{
  ℕ, Text, All, ◌<◌, ◌==◌, ◌∷◌, ◌≡◌, false, [], refl, suc, arith, zero, some, ◌∙◌,
}
use pds_progetto.Cpp.Numbers.{to_string, is_space, scan, show, digit_char}
use pds_progetto.Base.Int.{ℤ, pos}
use pds_progetto.Cpp.Stream.{skip_blanks}
use pds_progetto.Cpp.Numbers.RoundTrip.{show_head, scan-show}

starts_with-without :
    (a : ℕ) (word s : Text) → All (λ c. (a == c) ≡ false) s → starts_with (a ∷ word) s ≡ false
unfolding starts_with
starts_with-without a word [] h = refl
starts_with-without a word (b ∷ s) (other, h) = rw (other) refl

-- A text without the first letter of a word does not contain it.
pub contains-without :
    (a : ℕ) (word s : Text) → All (λ c. (a == c) ≡ false) s → contains (a ∷ word) s ≡ false
unfolding contains
contains-without a word [] h = refl
contains-without a word (b ∷ s) h =
    rw (starts_with-without a word (b ∷ s) h, contains-without a word s h.1, contains) refl

read_int-scan :
    (old : ℤ) (c : ℕ) (s : Text) (n : ℕ) (rest : Text)
    → is_space c ≡ false
    → scan 10 (32 ∷ c ∷ s) ≡ some (false, n, rest)
    → read_int old (32 ∷ c ∷ s) ≡ clamped false n
unfolding read_int skip_blanks
read_int-scan old c s n rest plain found = rw (found, plain) refl

clamped_lem : (n : ℕ) → n < 2147483648 → clamped false n ≡ pos n
clamped_lem zero h = refl
clamped_lem (suc n) h = ground arith

-- `>>` of an `int` that is not negative, behind one space.
pub read_int-to_string :
    (old : ℤ) (n : ℕ) → n < 2147483648 → read_int old (32 ∷ to_string (pos n)) ≡ pos n
unfolding to_string
read_int-to_string old n h =
    let (d, s, lt, e) = show_head 10 (omega arith) (omega arith) n in
    let whole : scan 10 (32 ∷ show 10 n) ≡ some (false, n, []) =
      rw (append-nil (show 10 n)) at (scan-show 10 (omega arith) (omega arith) 1 n [] tt) in
    rw (e)
      (read_int-scan old (digit_char d) s n [] (ground arith) (rw e at whole) ∙ clamped_lem n h)
