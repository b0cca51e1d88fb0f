-- ===== src/Console/Ports.antt =====
-- The question for the port in client/ConfigSetting.cpp and server/ServerConfigSetting.cpp.
use pds_progetto.Base.{
  refl, ℕ, ◌<◌, ◌≡◌, ◌≤◌, ◌^◌, leb, ◌+◌, ◌&&◌, arith, suc, zero, ◌==◌, ap, ◌∙◌, Text, Option, ◌⊎◌,
  is_empty, true, some, inl, inr, false, Bool-cases, ◌++◌, ◌∷◌, if◌then◌else◌,
}
use pds_progetto.Cpp.Dialog.{◌>>=◌, pure, modify, fail, IfOk}
use native.Mathlib.Nat.{pow-suc}
use pds_progetto.Base.Int.{ℤ, pos, negsuc}
use pds_progetto.Console.{has_four_digits, ask_port, next_line, pure, modify}
use pds_progetto.Cpp.Result.{Result, ok, Exception, throws}
use pds_progetto.Cpp.Stream.{Stream, ignore_one, clear, getline, opened_on}
use pds_progetto.Cpp.Numbers.{stoi, to_string}
use pds_progetto.Cpp.Stream.Laws.{getline-line, to_string-IsLine}
use pds_progetto.Cpp.Numbers.Digits.{to_string-is_empty}
use pds_progetto.Cpp.Numbers.RoundTrip.{stoi-to_string}

-- `(int) log10((double) n)` counts the digits behind the first.
abbrev pub IsLog10 : (ℕ → ℕ) → Type 0
IsLog10 log10 = (n : ℕ) → 0 < n → (10 ^ log10 n ≤ n) × (n < 10 ^ (log10 n + 1))

abbrev pub IsPort : ℤ → Type 0
IsPort v = (n : ℕ) × ((v ≡ pos n) × ((1000 ≤ n) × (n ≤ 9999)))

pow_lem : (j : ℕ) → 10000 ≤ 10 ^ suc (suc (suc (suc j)))
pow_lem zero = ground arith
pow_lem (suc j) = let more = pow_lem j in rw (pow-suc) omega (arith, more)

four_lem : (l n : ℕ) → 10 ^ l ≤ n → n < 10 ^ suc l → (suc l == 4) ≡ (leb 1000 n && leb n 9999)
four_lem zero n low high = ground arith
four_lem (suc zero) n low high = ground arith
four_lem (suc (suc zero)) n low high = ground arith
four_lem (suc (suc (suc zero))) n low high = ground arith
four_lem (suc (suc (suc (suc j)))) n low high = let big = pow_lem j in ground (arith, big)

four_digits_lem :
    (log10 : ℕ → ℕ) (n : ℕ)
    → IsLog10 log10
    → has_four_digits log10 (pos n) ≡ (leb 1000 n && leb n 9999)
four_digits_lem log10 zero law = ground arith
four_digits_lem log10 (suc k) law =
    let (low, high) = law (suc k) (omega arith) in
    let same : log10 (suc k) + 1 ≡ suc (log10 (suc k)) = omega arith in
    let high = rw same at high in ap (λ l. l == 4) same ∙ four_lem (log10 (suc k)) (suc k) low high

-- What follows the line that was read.
judged : (ℕ → ℕ) → ℕ → ℤ → Text × Stream → Option (Result ℤ × Stream)
judged log10 fuel port (typed, cin) = elim (is_empty typed) [
  | true ↦ some (ok port, cin)
  | false ↦ elim (stoi typed) [
    | throws e ↦ some (throws e, cin)
    | ok n ↦ elim (has_four_digits log10 n) [
      | true ↦ some (ok n, cin)
      | false ↦ ask_port log10 fuel port typed (ignore_one (clear cin))
    ]
  ]
]

pub Result-cases :
    {A : Type 0} → (r : Result A) → ((a : A) × (r ≡ ok a)) ⊎ ((e : Exception) × (r ≡ throws e))
Result-cases (ok a) = inl (a, refl)
Result-cases (throws e) = inr (e, refl)

judged-ask_port :
    (log10 : ℕ → ℕ) (fuel : ℕ) (port : ℤ) (old : Text) (cin : Stream)
    → ask_port log10 (suc fuel) port old cin ≡ judged log10 fuel port (getline old cin)
unfolding judged ask_port next_line ◌>>=◌ fail pure modify
judged-ask_port log10 fuel port old cin =
    let typed = (getline old cin).0 in
    elim (Bool-cases (is_empty typed)) [
      | inl default ↦ rw (ask_port, next_line, ◌>>=◌, judged, default) refl
      | inr typed_ ↦ elim (Result-cases (stoi typed)) [
        | inr (e, bad) ↦ rw (ask_port, next_line, ◌>>=◌, judged, typed_, bad) refl
        | inl (n, fine) ↦ elim (Bool-cases (has_four_digits log10 n)) [
          | inl four ↦ rw (ask_port, next_line, ◌>>=◌, judged, typed_, fine, four) refl
          | inr other ↦ rw (ask_port, next_line, ◌>>=◌, judged, typed_, fine, other) refl
        ]
      ]
    ]

four_digits-IsPort :
    (log10 : ℕ → ℕ) (v : ℤ) → IsLog10 log10 → has_four_digits log10 v ≡ true → IsPort v
four_digits-IsPort log10 (pos n) law e =
    let same = four_digits_lem log10 n law in (n, (refl, ground arith))
four_digits-IsPort log10 (negsuc n) law e = absurd (ground arith)

-- The old port or one of four digits.
abbrev pub Accepts : ℤ → ℤ → Type 0
Accepts port v = (v ≡ port) ⊎ IsPort v

judged-Accepts :
    (log10 : ℕ → ℕ) (fuel : ℕ) (port : ℤ) (read : Text × Stream)
    → IsLog10 log10
    → ((old : Text) (cin : Stream)
        → IfOk (λ v cin. Accepts port v) (ask_port log10 fuel port old cin))
    → IfOk (λ v cin. Accepts port v) (judged log10 fuel port read)
unfolding judged
judged-Accepts log10 fuel port (typed, cin) law again = elim (Bool-cases (is_empty typed)) [
  | inl default ↦ rw (IfOk, judged, default) (inl refl)
  | inr typed_ ↦ elim (Result-cases (stoi typed)) [
    | inr (e, bad) ↦ rw (IfOk, judged, typed_, bad) tt
    | inl (n, fine) ↦ elim (Bool-cases (has_four_digits log10 n)) [
      | inl four ↦ rw (IfOk, judged, typed_, fine, four) (inr (four_digits-IsPort log10 n law four))
      | inr other ↦
          (let rest = again typed (ignore_one (clear cin)) in
            rw (IfOk, judged, typed_, fine, other) rest)
    ]
  ]
]

pub ask_port-Accepts :
    (log10 : ℕ → ℕ) (fuel : ℕ) (port : ℤ) (old : Text) (cin : Stream)
    → IsLog10 log10
    → IfOk (λ v cin. Accepts port v) (ask_port log10 fuel port old cin)
unfolding ask_port
ask_port-Accepts log10 zero port old cin law = tt
ask_port-Accepts log10 (suc fuel) port old cin law =
    let more =
      judged-Accepts log10 fuel port (getline old cin) law
        (λ old cin. ask_port-Accepts log10 fuel port old cin law) in
    rw (judged-ask_port log10 fuel port old cin) more

judged_number :
    (log10 : ℕ → ℕ) (fuel : ℕ) (port v : ℤ) (typed : Text) (cin : Stream)
    → is_empty typed ≡ false
    → stoi typed ≡ ok v
    → judged log10 fuel port (typed, cin) ≡ (
        if has_four_digits log10 v
        then some (ok v, cin)
        else ask_port log10 fuel port typed (ignore_one (clear cin)))
unfolding judged
judged_number log10 fuel port v typed cin typed_ read =
    elim (Bool-cases (has_four_digits log10 v)) [
      | inl four ↦ rw (typed_, judged, read, four) refl
      | inr other ↦ rw (typed_, judged, read, other) refl
    ]

-- One question answered by a number, as `std::to_string` writes it, on a line of its own with a
-- byte behind the line: a number from 1000 to 9999 is taken, and after any other the question is
-- asked again without that byte.
pub ask_port-to_string :
    (log10 : ℕ → ℕ) (fuel n c : ℕ) (rest : Text) (port : ℤ) (old : Text)
    → IsLog10 log10
    → n < 2147483648
    → ask_port log10 (suc fuel) port old (opened_on (to_string (pos n) ++ b'\n' ∷ c ∷ rest)) ≡ (
        if leb 1000 n && leb n 9999
        then some (ok (pos n), opened_on (c ∷ rest))
        else ask_port log10 fuel port (to_string (pos n)) (opened_on rest))
unfolding ignore_one
ask_port-to_string log10 fuel n c rest port old law small =
    let written = to_string (pos n) in
    let read = getline-line old written (c ∷ rest) (to_string-IsLine (pos n) n refl) in
    let test = four_digits_lem log10 n law in
    judged-ask_port log10 fuel port old (opened_on (written ++ b'\n' ∷ c ∷ rest))
    ∙ ap (judged log10 fuel port) read
    ∙ judged_number log10 fuel port (pos n) written (opened_on (c ∷ rest)) (to_string-is_empty n)
        (stoi-to_string n small)
    ∙ ap
        (λ b.
          if b
          then some (ok (pos n), opened_on (c ∷ rest))
          else ask_port log10 fuel port written (opened_on rest))
        test

-- A port of four digits with any text behind its line.
pub ask_port-IsPort_line :
    (log10 : ℕ → ℕ) (fuel n : ℕ) (rest : Text) (port : ℤ) (old : Text)
    → IsLog10 log10
    → 1000 ≤ n
    → n ≤ 9999
    → ask_port log10 (suc fuel) port old (opened_on (to_string (pos n) ++ b'\n' ∷ rest))
      ≡ some (ok (pos n), opened_on rest)
ask_port-IsPort_line log10 fuel n rest port old law low high =
    let written = to_string (pos n) in
    let read = getline-line old written rest (to_string-IsLine (pos n) n refl) in
    let test : has_four_digits log10 (pos n) ≡ true = four_digits_lem log10 n law ∙ ground arith in
    judged-ask_port log10 fuel port old (opened_on (written ++ b'\n' ∷ rest))
    ∙ ap (judged log10 fuel port) read
    ∙ judged_number log10 fuel port (pos n) written (opened_on rest) (to_string-is_empty n)
        (stoi-to_string n (omega arith))
    ∙ ap
        (λ b.
          if b
          then some (ok (pos n), opened_on rest)
          else ask_port log10 fuel port written (ignore_one (opened_on rest)))
        test
