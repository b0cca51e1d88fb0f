-- ===== src/Cpp/Effect.antt =====
-- C++ code that changes a state and may throw: the state survives the exception, for `catch`.
use pds_progetto.Cpp.Result.{Result, ok, throws}
use pds_progetto.Base.{Bool, ◌≡◌, true, false, refl, ap}

abbrev pub Effect : Type 0 → Type 0 → Type 0
Effect S A = S → Result A × S

infixl 5 ◌>>=◌ ◌>>◌
unfoldable pub ◌>>=◌ : {S A B : Type 0} → Effect S A → (A → Effect S B) → Effect S B
(m >>= f) s = let (r, s') = m s in elim r [ ok a ↦ f a s' | throws e ↦ (throws e, s') ]

abbrev pub ◌>>◌ : {S B : Type 0} → Effect S (Unit {0}) → Effect S B → Effect S B
m >> k = m >>= λ _. k

unfoldable pub pure : {S A : Type 0} → A → Effect S A
pure a s = (ok a, s)

unfoldable pub modify : {S : Type 0} → (S → S) → Effect S (Unit {0})
modify f s = (ok tt, f s)

unfoldable pub reads : {S A : Type 0} → (S → Result A) → Effect S A
reads f s = (f s, s)

-- An effect on a part of the state.
unfoldable pub on : {S T A : Type 0} → (S → T) → (T → S → S) → Effect T A → Effect S A
on get set m s = let (r, t) = m (get s) in (r, set t s)

-- `if (c) { m }`.
unfoldable pub when : {S : Type 0} → Bool → Effect S (Unit {0}) → Effect S (Unit {0})
unfolding pure
when true m = m
when false m = pure tt

-- `try { m } catch (std::exception &e) { h }`.
unfoldable pub catching : {S A : Type 0} → Effect S A → Effect S A → Effect S A
catching m h s = let (r, s') = m s in elim r [ ok a ↦ (ok a, s') | throws e ↦ h s' ]

-- The predicate of the result and the state, and of the state that an exception leaves.
abbrev pub Outcome : {S A : Type 0} → (A → S → Type 0) → (S → Type 0) → Result A × S → Type 0
Outcome P X (ok a, s) = P a s
Outcome P X (throws e, s) = X s

pub all-Outcome :
    {S A : Type 0} (Q : S → Type 0) (r : Result A × S) → ((s : S) → Q s) → Outcome (λ _ s. Q s) Q r
all-Outcome Q (ok a, s) h = h s
all-Outcome Q (throws e, s) h = h s

pub record Ends {S A : Type 0} (P : A → S → Type 0) (X : S → Type 0) (m : Effect S A) (s : S)
    : Type 0 where
  pub holds : Outcome P X (m s)

module _ {S A B : Type 0} where
  bind-Outcome :
      (P : A → S → Type 0) (Q : B → S → Type 0) (X : S → Type 0) (f : A → Effect S B) (r : Result A)
      (s : S)
      → Outcome P X (r, s)
      → ((a : A) (s' : S) → P a s' → Ends Q X (f a) s')
      → Outcome Q X (elim r [ ok a ↦ f a s | throws e ↦ (throws e, s) ])
  bind-Outcome P Q X f (ok a) s h k = (k a s h).holds
  bind-Outcome P Q X f (throws e) s h k = h

  pub bind-Ends :
      {P : A → S → Type 0} {Q : B → S → Type 0} {X : S → Type 0} {m : Effect S A}
      {f : A → Effect S B} {s : S}
      → Ends P X m s
      → ((a : A) (s' : S) → P a s' → Ends Q X (f a) s')
      → Ends Q X (m >>= f) s
  unfolding ◌>>=◌
  bind-Ends {P = P} {Q = Q} {X = X} {m = m} {f = f} {s = s} h k = record {
    holds = bind-Outcome P Q X f (m s).0 (m s).1 h.holds k;
  }

module _ {S A : Type 0} where
  catching-Outcome :
      (P : A → S → Type 0) (X Y : S → Type 0) (h : Effect S A) (r : Result A) (s : S)
      → Outcome P X (r, s)
      → ((s' : S) → X s' → Ends P Y h s')
      → Outcome P Y (elim r [ ok a ↦ (ok a, s) | throws e ↦ h s ])
  catching-Outcome P X Y h (ok a) s p k = p
  catching-Outcome P X Y h (throws e) s p k = (k s p).holds

  pub catching-Ends :
      {P : A → S → Type 0} {X Y : S → Type 0} {m h : Effect S A} {s : S}
      → Ends P X m s
      → ((s' : S) → X s' → Ends P Y h s')
      → Ends P Y (catching m h) s
  unfolding catching
  catching-Ends {P = P} {X = X} {Y = Y} {m = m} {h = h} {s = s} p k = record {
    holds = catching-Outcome P X Y h (m s).0 (m s).1 p.holds k;
  }

  pub pure-Ends :
      {P : A → S → Type 0} {X : S → Type 0} (a : A) {s : S} → P a s → Ends P X (pure a) s
  unfolding pure
  pure-Ends a h = record { holds = h }

  weaken-Outcome :
      (P Q : A → S → Type 0) (X : S → Type 0) (r : Result A) (s : S)
      → Outcome P X (r, s)
      → ((a : A) (s' : S) → P a s' → Q a s')
      → Outcome Q X (r, s)
  weaken-Outcome P Q X (ok a) s h k = k a s h
  weaken-Outcome P Q X (throws e) s h k = h

  pub weaken-Ends :
      {P Q : A → S → Type 0} {X : S → Type 0} {m : Effect S A} {s : S}
      → Ends P X m s
      → ((a : A) (s' : S) → P a s' → Q a s')
      → Ends Q X m s
  weaken-Ends {P = P} {Q = Q} {X = X} {m = m} {s = s} h k = record {
    holds = weaken-Outcome P Q X (m s).0 (m s).1 h.holds k;
  }

  Outcome-returns :
      (P : A → S → Type 0) (r : Result A) (s : S)
      → Outcome P (λ _. ⊥) (r, s)
      → (a : A) × (s' : S) × (◌≡◌ {A = Result A × S} (r, s) (ok a, s')) × P a s'
  Outcome-returns P (ok a) s h = (a, s, refl, h)
  Outcome-returns P (throws e) s h = absurd h

  -- An effect that cannot throw returns.
  pub Ends-returns :
      {P : A → S → Type 0} {m : Effect S A} {s : S}
      → Ends P (λ _. ⊥) m s
      → (a : A) × (s' : S) × (m s ≡ (ok a, s')) × P a s'
  Ends-returns {P = P} {m = m} {s = s} h = Outcome-returns P (m s).0 (m s).1 h.holds

  -- A read that is known to succeed.
  pub reads-bind :
      {B : Type 0} {P : B → S → Type 0} {X : S → Type 0} (f : S → Result A) (k : A → Effect S B)
      {s : S} (a : A)
      → f s ≡ ok a
      → Ends P X (k a) s
      → Ends P X (reads f >>= k) s
  unfolding reads ◌>>=◌
  reads-bind {P = P} {X = X} f k {s = s} a e h = record { holds = rw (e) (h.holds) }

module _ {S : Type 0} where
  pub modify-Ends :
      {P : Unit {0} → S → Type 0} {X : S → Type 0} (f : S → S) {s : S}
      → P tt (f s)
      → Ends P X (modify f) s
  unfolding modify
  modify-Ends f h = record { holds = h }

  pub when-Ends :
      {P : Unit {0} → S → Type 0} {X : S → Type 0} {b : Bool} {m : Effect S (Unit {0})} {s : S}
      → (b ≡ true → Ends P X m s)
      → (b ≡ false → P tt s)
      → Ends P X (when b m) s
  unfolding when
  when-Ends {b = true} h k = h refl
  when-Ends {b = false} h k = record { holds = k refl }

module _ {S T A : Type 0} (get : S → T) (set : T → S → S) where
  on-Outcome :
      (P : A → S → Type 0) (X : S → Type 0) (r : Result A) (t : T) (s : S)
      → Outcome (λ a u. P a (set u s)) (λ u. X (set u s)) (r, t)
      → Outcome P X (r, set t s)
  on-Outcome P X (ok a) t s h = h
  on-Outcome P X (throws e) t s h = h

  pub on-Ends :
      {P : A → S → Type 0} {X : S → Type 0} (m : Effect T A) {s : S}
      → Outcome (λ a u. P a (set u s)) (λ u. X (set u s)) (m (get s))
      → Ends P X (on get set m) s
  unfolding on
  on-Ends {P = P} {X = X} m {s = s} h = record {
    holds = on-Outcome P X (m (get s)).0 (m (get s)).1 s h;
  }

never-Outcome :
    {S B : Type 0} (P : B → S → Type 0) (X : S → Type 0) (r : Result B × S)
    → Outcome P (λ _. ⊥) r
    → Outcome P X r
never-Outcome P X (ok b, s) h = h
never-Outcome P X (throws e, s) h = absurd h

pub kept-Outcome : {S B : Type 0} (Q : S → Type 0) (r : Result B × S) → Q r.1 → Outcome (λ _. Q) Q r
kept-Outcome Q (ok b, s) h = h
kept-Outcome Q (throws e, s) h = h

pub Outcome-kept : {S B : Type 0} (Q : S → Type 0) (r : Result B × S) → Outcome (λ _. Q) Q r → Q r.1
Outcome-kept Q (ok b, s) h = h
Outcome-kept Q (throws e, s) h = h

-- A fact about the state that an effect leaves.
pub kept :
    {S B : Type 0} {Q : S → Type 0} (m : Effect S B) {s : S} → Q (m s).1 → Ends (λ _. Q) Q m s
kept {Q = Q} m {s = s} h = record { holds = kept-Outcome Q (m s) h }

-- An effect that does not throw.
pub never :
    {S B : Type 0} {P : B → S → Type 0} {X : S → Type 0} {m : Effect S B} {s : S}
    → Ends P (λ _. ⊥) m s
    → Ends P X m s
never {P = P} {X = X} {m = m} {s = s} h = record { holds = never-Outcome P X (m s) h.holds }

-- What follows an effect that returned.
pub bind-returned :
    {S A B : Type 0} (m : Effect S A) (f : A → Effect S B) (a : A) {s t : S}
    → m s ≡ (ok a, t)
    → (m >>= f) s ≡ f a t
unfolding ◌>>=◌
bind-returned {S = S} {A = A} {B = B} m f a e = ap (λ r. after_first r) e
  where
    after_first : Result A × S → Result B × S
    after_first (r, s) = elim r [ ok a ↦ f a s | throws e ↦ (throws e, s) ]

-- An effect for each answer.
pub choice-Ends :
    {S A : Type 0} {P : A → S → Type 0} {X : S → Type 0} {s : S} (b : Bool) (m n : Effect S A)
    → (b ≡ true → Ends P X m s)
    → (b ≡ false → Ends P X n s)
    → Ends P X (elim b [ true ↦ m | false ↦ n ]) s
choice-Ends true m n h k = h refl
choice-Ends false m n h k = k refl
