-- ===== src/Base/Sorted.antt =====
-- `std::map` and `std::set` over texts where the order of their iteration matters: lists in
-- ascending order of the keys.
use pds_progetto.Base.Equality.{same_text}
use pds_progetto.Base.{
  Text, Bool, List, false, ◌≡◌, ◌∷◌, none, ◌||◌, true, if◌then◌else◌, arith, ltb, some,
  same_text_iff, ◌==◌, ◌&&◌, [], text_eq, refl,
}
use pds_progetto.Base.Dict.{lookup, Dict}

-- `std::string::operator<`.
unfoldable pub text_lt : Text → Text → Bool
text_lt s [] = false
text_lt [] (b ∷ t) = true
text_lt (a ∷ s) (b ∷ t) = ltb a b || (a == b && text_lt s t)

module _ {ℓ} {V : Type ℓ} where
  -- `insert(make_pair(k, v))`, which keeps the entry that is there.
  unfoldable pub place : Text → V → Dict Text V → Dict Text V
  unfolding text_lt same_text
  place k v [] = (k, v) ∷ []
  place k v ((j, w) ∷ d) =
      if same_text j k
      then (j, w) ∷ d
      else if text_lt k j
      then (k, v) ∷ (j, w) ∷ d
      else (j, w) ∷ place k v d

  pub lookup-place :
      (k j : Text) (v : V) (d : Dict Text V)
      → lookup k d ≡ none
      → lookup j (place k v d) ≡ (if same_text k j then some v else lookup j d)
  unfolding lookup place
  lookup-place k j v [] h = ground arith
  lookup-place k j v ((i, w) ∷ d) h =
      ground (arith, same_text_iff k j, same_text_iff i k, same_text_iff i j, lookup-place k j v d)

-- A set.
unfoldable pub member : Text → List Text → Bool
unfolding same_text
member p [] = false
member p (q ∷ ps) = same_text q p || member p ps

unfoldable pub place_member : Text → List Text → List Text
unfolding text_lt same_text
place_member p [] = p ∷ []
place_member p (q ∷ ps) =
    if same_text q p then q ∷ ps else if text_lt p q then p ∷ q ∷ ps else q ∷ place_member p ps

pub member-place_member :
    (p q : Text) (ps : List Text) → member q (place_member p ps) ≡ (same_text p q || member q ps)
unfolding member place_member
member-place_member p q [] = refl
member-place_member p q (r ∷ ps) =
    ground
      (arith, same_text_iff p q, same_text_iff r p, same_text_iff r q, member-place_member p q ps)
