-- ===== src/Cpp/Numbers/Digits.antt =====
-- Which characters a number is written with.
use pds_progetto.Base.{
  ℕ, ◌<◌, Text, All, suc, ◌++◌, ◌∷◌, Bool-cases, ltb, [], inl, arith, inr, ◌/◌, ◌%◌, zero, is_empty,
  ◌≡◌, false, refl,
}
use pds_progetto.Cpp.Numbers.{digit_char, digits, to_string}
use pds_progetto.Base.Int.{pos}

module _ (P : ℕ → Type 0) (each : (d : ℕ) → d < 10 → P (digit_char d)) where
  All-append : (xs ys : Text) → All P xs → All P ys → All P (xs ++ ys)
  All-append [] ys h k = k
  All-append (x ∷ xs) ys h k = (h.0, All-append xs ys h.1 k)

  digits-All : (f n : ℕ) → All P (digits 10 f n)
  unfolding digits
  digits-All zero n = tt
  digits-All (suc f) n = elim (Bool-cases (ltb n 10)) [
    | inl small ↦ rw small ((rw small at (each n (ground arith))), tt)
    | inr large ↦ rw large (
        All-append (digits 10 f (n / 10)) (digit_char (n % 10) ∷ []) (digits-All f (n / 10))
          (each (n % 10) (omega arith), tt))
  ]

  -- A number that is not negative is written with decimal digits only.
  pub to_string-All : (n : ℕ) → All P (to_string (pos n))
  unfolding to_string
  to_string-All n = digits-All (suc n) n

is_empty-append : (s : Text) (c : ℕ) → is_empty (s ++ c ∷ []) ≡ false
is_empty-append [] c = refl
is_empty-append (d ∷ s) c = refl

-- It has a digit.
pub to_string-is_empty : (n : ℕ) → is_empty (to_string (pos n)) ≡ false
unfolding to_string
to_string-is_empty n = elim (Bool-cases (ltb n 10)) [
  | inl small ↦ rw (small) refl
  | inr large ↦ rw (large) (is_empty-append (digits 10 n (n / 10)) (digit_char (n % 10)))
]
