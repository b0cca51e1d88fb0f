-- ===== src/Base/Equality.antt =====
-- `==` for the key types of the program's maps: numbers and byte strings.
use Prim.Native.Nat.{ℕ}
use mathlib.Core.Path.{◌≡◌, refl}
use mathlib.Core.Logic.{◌↔◌}
use mathlib.Core.Bool.{Bool, true, false, ◌&&◌}
use mathlib.Core.List.{[], ◌∷◌}
use native.Mathlib.Omega.{arith}
use pds_progetto.Base.Tests.{◌==◌, ==_iff}
use pds_progetto.Base.Lists.{Text}
use pds_progetto.Base.Int.{ℤ, ◌==ℤ◌, ==ℤ_iff}

pub record Eq {ℓ} (A : Type ℓ) : Type ℓ where
  pub beq : A → A → Bool
  pub beq_iff : (a b : A) → (beq a b ≡ true) ↔ (a ≡ b)

-- `std::string::operator==`.
unfoldable pub same_text : Text → Text → Bool
same_text [] [] = true
same_text [] (b ∷ bs) = false
same_text (a ∷ as') [] = false
same_text (a ∷ as') (b ∷ bs) = (a == b) && same_text as' bs

pub same_text_iff : (s t : Text) → (same_text s t ≡ true) ↔ (s ≡ t)
unfolding same_text
same_text_iff [] [] = (λ _. refl, λ _. refl)
same_text_iff [] (b ∷ bs) = ground arith
same_text_iff (a ∷ s) [] = ground arith
same_text_iff (a ∷ s) (b ∷ t) = ground (arith, same_text_iff s t)

pub same_text_refl : (s : Text) → same_text s s ≡ true
same_text_refl s = (same_text_iff s s).1 refl

instance abbrev pub nat_eq : Eq ℕ
nat_eq = record { beq = ◌==◌; beq_iff = ==_iff }

instance abbrev pub text_eq : Eq Text
text_eq = record { beq = same_text; beq_iff = same_text_iff }

instance abbrev pub int_eq : Eq ℤ
int_eq = record { beq = ◌==ℤ◌; beq_iff = ==ℤ_iff }
