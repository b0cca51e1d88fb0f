-- ===== src/Cpp/Dialog.antt =====
-- Code with loops that nothing bounds, on fuel: `none` means that the fuel ran out, and otherwise
-- there is a result, or an exception, and the state that it leaves.
use pds_progetto.Base.{Option, none, some, ◌≡◌, refl, ◌≢◌, arith}
use pds_progetto.Cpp.Result.{Exception, Result, ok, throws}
use pds_progetto.Cpp.Effect.{Effect, Ends, Outcome}

abbrev pub Dialog : Type 0 → Type 0 → Type 0
Dialog S A = S → Option (Result A × S)

infixl 5 ◌>>=◌ ◌>>◌
unfoldable pub ◌>>=◌ : {S A B : Type 0} → Dialog S A → (A → Dialog S B) → Dialog S B
(m >>= f) s = elim (m s) [
  | none ↦ none
  | some (r, s') ↦ elim r [ ok a ↦ f a s' | throws e ↦ some (throws e, s') ]
]

abbrev pub ◌>>◌ : {S B : Type 0} → Dialog S (Unit {0}) → Dialog S B → Dialog S B
m >> k = m >>= λ _. k

unfoldable pub pure : {S A : Type 0} → A → Dialog S A
pure a s = some (ok a, s)

unfoldable pub fail : {S A : Type 0} → Exception → Dialog S A
fail e s = some (throws e, s)

unfoldable pub reads : {S A : Type 0} → (S → A) → Dialog S A
reads f s = some (ok (f s), s)

unfoldable pub modify : {S : Type 0} → (S → S) → Dialog S (Unit {0})
modify f s = some (ok tt, f s)

-- A step that ends, such as one without a loop.
unfoldable pub ends : {S A : Type 0} → Effect S A → Dialog S A
ends m s = some (m s)

-- A dialog on a part of the state.
unfoldable pub within : {S T A : Type 0} → (S → T) → (T → S → S) → Dialog T A → Dialog S A
within get set m s = elim (m (get s)) [ none ↦ none | some (r, t) ↦ some (r, set t s) ]

-- There is no fuel left.
abbrev pub spent : {S A : Type 0} → Dialog S A
spent s = none

-- The result, if there is one, and the state have the property.
abbrev pub IfOk : {S A : Type 0} → (A → S → Type 0) → Option (Result A × S) → Type 0
IfOk P none = Unit {0}
IfOk P (some (ok a, s)) = P a s
IfOk P (some (throws e, s)) = Unit {0}

-- A step that has a result, and what follows it.
pub after-ok :
    {S A B : Type 0} (m : Dialog S A) (f : A → Dialog S B) (s : S) {s' : S} {a : A}
    {r : Option (Result B × S)}
    → m s ≡ some (ok a, s')
    → f a s' ≡ r
    → (m >>= f) s ≡ r
unfolding ◌>>=◌
after-ok m f s e k = rw (◌>>=◌, e) k

pub after-throws :
    {S A B : Type 0} (m : Dialog S A) (f : A → Dialog S B) (s : S) {s' : S} {e : Exception}
    → m s ≡ some (throws e, s')
    → (m >>= f) s ≡ some (throws e, s')
unfolding ◌>>=◌
after-throws m f s h = rw (◌>>=◌, h) refl

pub within-ok :
    {S T A : Type 0} (get : S → T) (set : T → S → S) (m : Dialog T A) (s : S) {t : T} {a : A}
    → m (get s) ≡ some (ok a, t)
    → within get set m s ≡ some (ok a, set t s)
unfolding within
within-ok get set m s e = rw (within, e) refl

-- The same as `>>=`, for a file with another one.
unfoldable pub and_then : {S A B : Type 0} → Dialog S A → (A → Dialog S B) → Dialog S B
unfolding ◌>>=◌
and_then m f = m >>= f

module _ {S A B : Type 0} where
  bind-IfOk :
      (P : A → S → Type 0) (Q : B → S → Type 0) (f : A → Dialog S B) (r : Option (Result A × S))
      → IfOk P r
      → ((a : A) (t : S) → P a t → IfOk Q (f a t))
      → IfOk Q (elim r [
        | none ↦ none
        | some (r, t) ↦ elim r [ ok a ↦ f a t | throws e ↦ some (throws e, t) ]
      ])
  bind-IfOk P Q f none h k = tt
  bind-IfOk P Q f (some (ok a, t)) h k = k a t h
  bind-IfOk P Q f (some (throws e, t)) h k = tt

  pub and_then-IfOk :
      (P : A → S → Type 0) (Q : B → S → Type 0) (m : Dialog S A) (f : A → Dialog S B) (s : S)
      → IfOk P (m s)
      → ((a : A) (t : S) → P a t → IfOk Q (f a t))
      → IfOk Q (and_then m f s)
  unfolding and_then ◌>>=◌
  and_then-IfOk P Q m f s h k = bind-IfOk P Q f (m s) h k

module _ {S A : Type 0} where
  some-IfOk :
      (P : A → S → Type 0) (X : S → Type 0) (r : Result A × S) → Outcome P X r → IfOk P (some r)
  some-IfOk P X (ok a, s) h = h
  some-IfOk P X (throws e, s) h = tt

  pub ends-IfOk :
      {P : A → S → Type 0} {X : S → Type 0} {m : Effect S A} {s : S}
      → Ends P X m s
      → IfOk P (ends m s)
  unfolding ends
  ends-IfOk {P = P} {X = X} {m = m} {s = s} h = some-IfOk P X (m s) h.holds

module _ {S A B : Type 0} (m : Dialog S A) (f : A → Dialog S B) (s : S) where
  -- A step that runs out of fuel.
  pub and_then-none : m s ≡ none → and_then m f s ≡ none
  unfolding and_then ◌>>=◌
  and_then-none e = rw (and_then, ◌>>=◌, e) refl

  none-elim :
      (r : Option (Result A × S))
      → ((a : A) (t : S) → f a t ≢ none)
      → elim r [
        | none ↦ none
        | some (r, t) ↦ elim r [ ok a ↦ f a t | throws e ↦ some (throws e, t) ]
      ]
        ≡ none
      → r ≡ none
  none-elim none ends h = refl
  none-elim (some (ok a, t)) ends h = absurd (ends a t h)
  none-elim (some (throws e, t)) ends h = absurd (ground arith)

  -- Only its first step runs out, if the other one ends.
  pub none-and_then : ((a : A) (t : S) → f a t ≢ none) → and_then m f s ≡ none → m s ≡ none
  unfolding and_then ◌>>=◌
  none-and_then ends h = none-elim (m s) ends h

  pub and_then-ok : (a : A) (t : S) → m s ≡ some (ok a, t) → and_then m f s ≡ f a t
  unfolding and_then ◌>>=◌
  and_then-ok a t e = rw (and_then, ◌>>=◌, e) refl

  pub and_then-throws :
      (e : Exception) (t : S) → m s ≡ some (throws e, t) → and_then m f s ≡ some (throws e, t)
  unfolding and_then ◌>>=◌
  and_then-throws e t h = rw (and_then, ◌>>=◌, h) refl

module _ {S A B : Type 0} where
  pub then-IfOk :
      (P : A → S → Type 0) (Q : B → S → Type 0) (m : Dialog S A) (f : A → Dialog S B) (s : S)
      → IfOk P (m s)
      → ((a : A) (t : S) → P a t → IfOk Q (f a t))
      → IfOk Q ((m >>= f) s)
  unfolding ◌>>=◌
  then-IfOk P Q m f s h k = bind-IfOk P Q f (m s) h k

module _ {S T A : Type 0} (get : S → T) (set : T → S → S) where
  within-elim :
      (P : A → S → Type 0) (s : S) (r : Option (Result A × T))
      → IfOk (λ a t. P a (set t s)) r
      → IfOk P (elim r [ none ↦ none | some (r, t) ↦ some (r, set t s) ])
  within-elim P s none h = tt
  within-elim P s (some (ok a, t)) h = h
  within-elim P s (some (throws e, t)) h = tt

  pub within-IfOk :
      (P : A → S → Type 0) (m : Dialog T A) (s : S)
      → IfOk (λ a t. P a (set t s)) (m (get s))
      → IfOk P (within get set m s)
  unfolding within
  within-IfOk P m s h = within-elim P s (m (get s)) h

pub every-IfOk :
    {S A : Type 0} (P : A → S → Type 0) (r : Option (Result A × S))
    → ((a : A) (s : S) → P a s)
    → IfOk P r
every-IfOk P none h = tt
every-IfOk P (some (ok a, s)) h = h a s
every-IfOk P (some (throws e, s)) h = tt

pub IfOk-some :
    {S A : Type 0} (P : A → S → Type 0) (r : Option (Result A × S)) (a : A) (s : S)
    → IfOk P r
    → r ≡ some (ok a, s)
    → P a s
IfOk-some P r a s h e = rw e at h
