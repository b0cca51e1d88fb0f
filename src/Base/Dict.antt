-- ===== src/Base/Dict.antt =====
-- `std::map` and `std::unordered_map` as association lists. The programs read them by key or
-- iterate over all entries.
use mathlib.Core.Path.{◌≡◌, refl}
use mathlib.Core.Option.{Option, none, some}
use mathlib.Core.List.{List, [], ◌∷◌}
use native.Mathlib.Omega.{arith}
use pds_progetto.Base.Tests.{if◌then◌else◌}
use pds_progetto.Base.Equality.{Eq}

abbrev pub Dict {ℓ κ} : Type ℓ → Type κ → Type (ℓ ⊔ κ)
Dict K V = List (K × V)

module _ {ℓ κ} {K : Type ℓ} {V : Type κ} ⦃e : Eq K⦄ where
  -- `find(k)`.
  unfoldable pub lookup : K → Dict K V → Option V
  lookup k [] = none
  lookup k ((j, v) ∷ d) = if e.beq j k then some v else lookup k d

  -- `insert_or_assign(k, v)`.
  unfoldable pub assign : K → V → Dict K V → Dict K V
  assign k v [] = (k, v) ∷ []
  assign k v ((j, w) ∷ d) = if e.beq j k then (k, v) ∷ d else (j, w) ∷ assign k v d

  -- `insert(make_pair(k, v))`, which keeps the entry that is there.
  unfoldable pub insert : K → V → Dict K V → Dict K V
  insert k v [] = (k, v) ∷ []
  insert k v ((j, w) ∷ d) = if e.beq j k then (j, w) ∷ d else (j, w) ∷ insert k v d

  -- `erase(k)`.
  unfoldable pub erase : K → Dict K V → Dict K V
  erase k [] = []
  erase k ((j, w) ∷ d) = let rest = erase k d in if e.beq j k then rest else (j, w) ∷ rest

  pub lookup-assign :
      (k j : K) (v : V) (d : Dict K V)
      → lookup j (assign k v d) ≡ (if e.beq k j then some v else lookup j d)
  unfolding lookup assign
  lookup-assign k j v [] = refl
  lookup-assign k j v ((i, w) ∷ d) =
      ground (arith, e.beq_iff k j, e.beq_iff i k, e.beq_iff i j, lookup-assign k j v d)

  pub lookup-insert :
      (k j : K) (v : V) (d : Dict K V)
      → lookup j (insert k v d)
        ≡ (if e.beq k j then elim (lookup k d) [ none ↦ some v | some w ↦ some w ] else lookup j d)
  unfolding lookup insert
  lookup-insert k j v [] = ground arith
  lookup-insert k j v ((i, w) ∷ d) =
      ground (arith, e.beq_iff k j, e.beq_iff i k, e.beq_iff i j, lookup-insert k j v d)

  pub lookup-erase :
      (k j : K) (d : Dict K V) → lookup j (erase k d) ≡ (if e.beq k j then none else lookup j d)
  unfolding lookup erase
  lookup-erase k j [] = ground arith
  lookup-erase k j ((i, w) ∷ d) =
      ground (arith, e.beq_iff k j, e.beq_iff i k, e.beq_iff i j, lookup-erase k j d)
