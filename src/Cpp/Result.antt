-- ===== src/Cpp/Result.antt =====
-- C++ code that may throw: the result, or the exception that leaves it.
use pds_progetto.Base.{◌≡◌, ◌≢◌, ap, refl, ◌⊎◌, inl, inr}

pub data Exception : Type 0 where
  invalid_argument out_of_range runtime_error filesystem_error : Exception

pub data Result {ℓ} (A : Type ℓ) : Type ℓ where
  ok : A → Result A
  throws : Exception → Result A

infixl 5 ◌>>=◌
abbrev pub ◌>>=◌ {ℓ κ} : {A : Type ℓ} {B : Type κ} → Result A → (A → Result B) → Result B
ok a >>= f = f a
throws e >>= f = throws e

pub Result-cases {ℓ} :
    {A : Type ℓ} (r : Result A) → ((e : Exception) × r ≡ throws e) ⊎ ((a : A) × r ≡ ok a)
Result-cases (ok a) = inr (a, refl)
Result-cases (throws e) = inl (e, refl)

pub ok_injective {ℓ} : {A : Type ℓ} {a b : A} → ok a ≡ ok b → a ≡ b
ok_injective {A = A} {a = a} e = ap (λ r. value r) e
  where
    value : Result A → A
    value (ok b) = b
    value (throws _) = a

pub ok_not_throws {ℓ} : {A : Type ℓ} {a : A} {e : Exception} → ok a ≢ throws e
ok_not_throws = λ same. cc
