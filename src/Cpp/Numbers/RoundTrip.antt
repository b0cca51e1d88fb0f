-- ===== src/Cpp/Numbers/RoundTrip.antt =====
-- Reading back what was written: the number and the text after it.
use native.Mathlib.Nat.{pow-zero, pow-suc, div-lt_iff_lt-mul}
use mathlib.Core.List.{append_assoc, append-nil}
use pds_progetto.Base.{
  ℕ, zero, suc, ◌+◌, ◌*◌, ◌/◌, ◌%◌, ◌^◌, ◌≤◌, ◌<◌, Text, false, none, some, [], ◌∷◌, ◌++◌, ◌≡◌,
  refl, ap, ◌∙◌, inl, inr, ◌==◌, ltb, length, length-append, replicate, arith, Bool-cases,
}
use pds_progetto.Base.Int.{pos}
use pds_progetto.Cpp.Result.{ok}
use pds_progetto.Cpp.Numbers.{
  digit_char, digit_value, digits, show, to_string, is_space, skip_spaces, read_digits, read_number,
  with_sign, read_signed, scan, signed, stoi,
}

-- The text does not go on with a digit.
abbrev pub Ends : ℕ → Text → Type 0
Ends base [] = Unit
Ends base (c ∷ s) = digit_value base c ≡ none

module _ (base : ℕ) (two : 2 ≤ base) (hex : base ≤ 16) where
  digit_value-digit_char : (d : ℕ) → d < base → digit_value base (digit_char d) ≡ some d
  digit_value-digit_char d h = ground arith

  quotient_lt : (n f : ℕ) → n < suc f → base ≤ n → n / base < f
  quotient_lt n f h k = grind arith

  remainder_lt : (n : ℕ) → n % base < base
  remainder_lt n = omega arith

  recombine : (n : ℕ) → n / base * base + n % base ≡ n
  recombine n = grind arith

  read_digits_step :
      (acc d : ℕ) (t : Text)
      → d < base
      → read_digits base acc (digit_char d ∷ t) ≡ read_digits base (acc * base + d) t
  unfolding read_digits
  read_digits_step acc d t h = rw (digit_value-digit_char d h, read_digits)

  read_digits-digits :
      (f n : ℕ) (t : Text)
      → n < f
      → read_digits base 0 (digits base f n ++ t) ≡ read_digits base n t
  unfolding digits
  read_digits-digits zero n t h = absurd (omega arith)
  read_digits-digits (suc f) n t h = elim (Bool-cases (ltb n base)) [
    | inl small ↦
        rw small (
          read_digits_step 0 n t (ground arith)
          ∙ ap (λ (x : ℕ). read_digits base x t) (omega arith))
    | inr large ↦
        rw (large, append_assoc (digits base f (n / base)) (digit_char (n % base) ∷ []) t)
          (read_digits-digits f (n / base) (digit_char (n % base) ∷ t)
              (quotient_lt n f h (ground arith))
            ∙ read_digits_step (n / base) (n % base) t (remainder_lt n)
            ∙ ap (λ (x : ℕ). read_digits base x t) (recombine n))
  ]

  -- What the written digits begin with.
  digits_head :
      (f n : ℕ) → n < f → (d : ℕ) × (s : Text) × (d < base) × (digits base f n ≡ digit_char d ∷ s)
  unfolding digits
  digits_head zero n h = absurd (omega arith)
  digits_head (suc f) n h = elim (Bool-cases (ltb n base)) [
    | inl small ↦ (n, [], ground arith, rw small)
    | inr large ↦
        let (d, s, lt, e) = digits_head f (n / base) (quotient_lt n f h (ground arith)) in
        (d, s ++ digit_char (n % base) ∷ [], lt, rw (large, e))
  ]

  read_digits_end : (n : ℕ) (t : Text) → Ends base t → read_digits base n t ≡ (n, t)
  unfolding read_digits
  read_digits_end n [] h = refl
  read_digits_end n (c ∷ t) h = rw (h, read_digits)

  read_number-digit :
      (d : ℕ) (s : Text)
      → d < base
      → read_number base (digit_char d ∷ s) ≡ some (read_digits base 0 (digit_char d ∷ s))
  unfolding read_number
  read_number-digit d s h =
      rw (digit_value-digit_char d h, read_number, read_digits_step 0 d s h)
        (ap (λ (x : ℕ). some (read_digits base x s)) (omega arith))

  read_number-show :
      (n : ℕ) (t : Text) → Ends base t → read_number base (show base n ++ t) ≡ some (n, t)
  unfolding show
  read_number-show n t h =
      let (d, s, lt, e) = digits_head (suc n) n (omega arith) in
      let all : read_digits base 0 (digits base (suc n) n ++ t) ≡ (n, t) =
        read_digits-digits (suc n) n t (omega arith) ∙ read_digits_end n t h in
      rw e (read_number-digit d (s ++ t) lt ∙ ap some (rw e at all))

  digit_char_plain :
      (d : ℕ)
      → d < base
      → (is_space (digit_char d) ≡ false)
        × ((digit_char d == b'-') ≡ false)
        × ((digit_char d == b'+') ≡ false)
  digit_char_plain d h = ground arith

  skip_spaces-replicate :
      (k d : ℕ) (s : Text)
      → d < base
      → skip_spaces (replicate k 32 ++ digit_char d ∷ s) ≡ digit_char d ∷ s
  unfolding skip_spaces
  skip_spaces-replicate zero d s h = rw (digit_char_plain d h).0
  skip_spaces-replicate (suc k) d s h = skip_spaces-replicate k d s h

  read_signed-digit :
      (d : ℕ) (s : Text)
      → d < base
      → read_signed base (digit_char d ∷ s) ≡ with_sign false (read_number base (digit_char d ∷ s))
  unfolding read_signed
  read_signed-digit d s h = rw ((digit_char_plain d h).1, (digit_char_plain d h).2)

  -- Leading spaces are skipped, and the number ends where its digits do.
  pub scan-show :
      (k n : ℕ) (t : Text)
      → Ends base t
      → scan base (replicate k 32 ++ (show base n ++ t)) ≡ some (false, n, t)
  unfolding scan show
  scan-show k n t h =
      let (d, s, lt, e) = digits_head (suc n) n (omega arith) in
      let number : with_sign false (read_number base (digits base (suc n) n ++ t))
          ≡ some (false, n, t) =
        ap (with_sign false) (unfold show in read_number-show n t h) in
      rw (e, skip_spaces-replicate k d (s ++ t) lt, read_signed-digit d (s ++ t) lt)
        (rw e at number)

  quotient_lt_pow : (k n : ℕ) → n < base ^ suc k → n / base < base ^ k
  quotient_lt_pow k n h =
      let p : n < base ^ k * base = rw pow-suc at h in grind (arith, div-lt_iff_lt-mul)

  below_one : (n : ℕ) → n < base ^ 1 → n < base
  below_one n h =
      let one : base ^ 1 ≡ 1 * base = pow-suc base 0 ∙ ap (λ (x : ℕ). x * base) (pow-zero base) in
      omega (arith, one)

  length-digits : (k f n : ℕ) → n < f → n < base ^ suc k → length (digits base f n) ≤ suc k
  unfolding digits
  length-digits k zero n h p = absurd (omega arith)
  length-digits zero (suc f) n h p = elim (Bool-cases (ltb n base)) [
    | inl small ↦ rw small (omega arith)
    | inr large ↦ absurd (ground (arith, below_one n p))
  ]
  length-digits (suc k) (suc f) n h p = elim (Bool-cases (ltb n base)) [
    | inl small ↦ rw small (omega arith)
    | inr large ↦ rw large (
        omega (
          arith,
          length-append (digits base f (n / base)) (digit_char (n % base) ∷ []),
          length-digits k f (n / base) (quotient_lt n f h (ground arith))
              (quotient_lt_pow (suc k) n p),
        ))
  ]

  -- A number below base^k has at most k digits.
  pub length-show : (k n : ℕ) → n < base ^ suc k → length (show base n) ≤ suc k
  unfolding show
  length-show k n p = length-digits k (suc n) n (omega arith) p

  -- Without leading spaces the text starts with a digit.
  pub show_head : (n : ℕ) → (d : ℕ) × (s : Text) × (d < base) × (show base n ≡ digit_char d ∷ s)
  unfolding show
  show_head n = digits_head (suc n) n (omega arith)

signed-pos : (n : ℕ) → signed false n ≡ pos n
signed-pos zero = refl
signed-pos (suc n) = refl

-- `std::stoi` reads what `std::to_string` wrote, for every value of `int` that is not negative.
pub stoi-to_string : (n : ℕ) → n < 2147483648 → stoi (to_string (pos n)) ≡ ok (pos n)
unfolding stoi to_string
stoi-to_string n h =
    rw (← append-nil (show 10 n), scan-show 10 (omega arith) (omega arith) 0 n [] tt)
      (ground (arith, signed-pos n))
