-- ===== src/Base/Int.antt =====
-- Signed integers over the native numbers, for `int` and the enums on it.
use pds_progetto.Base.Tests.{◌==◌, Bool-cases}
use Prim.Native.Nat.{ℕ, ◌≤◌}
use mathlib.Core.Path.{◌≡◌, sym, ◌∙◌}
use mathlib.Core.Logic.{◌↔◌, ◌⊎◌, inl, inr, ◌≢◌}
use mathlib.Core.Bool.{Bool, true, false}
use native.Mathlib.Omega.{arith}

-- `negsuc n` is -(n + 1).
pub data ℤ : Type 0 where
  pos : ℕ → ℤ
  negsuc : ℕ → ℤ

-- The range of `int`.
abbrev pub IsInt : ℤ → Type 0
IsInt (pos n) = n ≤ 2147483647
IsInt (negsuc n) = n ≤ 2147483647

infix 50 ◌==ℤ◌
abbrev pub ◌==ℤ◌ : ℤ → ℤ → Bool
pos a ==ℤ pos b = a == b
pos a ==ℤ negsuc b = false
negsuc a ==ℤ pos b = false
negsuc a ==ℤ negsuc b = a == b

pub ==ℤ_iff : (a b : ℤ) → ((a ==ℤ b) ≡ true) ↔ (a ≡ b)
==ℤ_iff (pos a) (pos b) = ground arith
==ℤ_iff (pos a) (negsuc b) = ground arith
==ℤ_iff (negsuc a) (pos b) = ground arith
==ℤ_iff (negsuc a) (negsuc b) = ground arith

pub int-cases : (a b : ℤ) → (a ≡ b) ⊎ (a ≢ b)
int-cases a b = elim (Bool-cases (a ==ℤ b)) [
  | inl same ↦ inl ((==ℤ_iff a b).0 same)
  | inr other ↦ inr (λ e. true_not_false (sym ((==ℤ_iff a b).1 e) ∙ other))
]
  where
    true_not_false : true ≢ false
    true_not_false = ground arith
