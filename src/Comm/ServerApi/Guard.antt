-- ===== src/Comm/ServerApi/Guard.antt =====
-- What a client can do before it is logged in.
use pds_progetto.Base.{
  Text, false, some, List, [], ◌∷◌, ◌++◌, int_eq, ◌≡◌, inl, inr, refl, sym, ap, ◌∙◌, arith,
  Option-cases, some-injective, All,
}
use pds_progetto.Base.Int.{ℤ, int-cases}
use pds_progetto.Base.Dict.{lookup}
use pds_progetto.Cpp.Result.{Result, ok, throws, ◌>>=◌}
use pds_progetto.Comm.Message.{Message}
use pds_progetto.Server.Session.{Session, new_session}
use pds_progetto.Server.SessionManager.{
  SessionManager, retrieve_session, pause_session, remove_session, update_session, enter, leave,
}
use pds_progetto.Server.SessionManager.Laws.{
  OnlyAt, retrieve_session-Reached, update_session_here, update_session-OnlyAt,
  update_session-absent,
}
use pds_progetto.Server.SessionManager.Numbering.{erased_lookup}
use pds_progetto.Comm.ServerApi.{session_at}

-- No stored session is logged in.
abbrev pub NobodyIn : SessionManager → Type 0
NobodyIn m = (j : ℤ) (s : Session) → lookup j m.sessions ≡ some s → s.login_status ≡ false

-- A result, if there is one, satisfies the predicate.
abbrev pub Returns {ℓ} : {A : Type ℓ} → (A → Type 0) → Result A → Type 0
Returns Q (ok a) = Q a
Returns Q (throws _) = Unit

pub Returns-bind :
    {A B : Type 0} (P : A → Type 0) (Q : B → Type 0) (r : Result A) (f : A → Result B)
    → Returns P r
    → ((a : A) → P a → Returns Q (f a))
    → Returns Q (r >>= f)
Returns-bind P Q (ok a) f h k = k a h
Returns-bind P Q (throws e) f h k = tt

pub Returns-bind_eq :
    {A B : Type 0} (P : A → Type 0) (r : Result A) (f g : A → Result B)
    → Returns P r
    → ((a : A) → P a → f a ≡ g a)
    → (r >>= f) ≡ (r >>= g)
Returns-bind_eq P (ok a) f g h k = k a h
Returns-bind_eq P (throws e) f g h k = refl

-- An entry whose new value is not logged in keeps the others as they were.
OnlyAt-NobodyIn :
    (m m' : SessionManager) (n : ℤ) (t : Session)
    → NobodyIn m
    → OnlyAt n m m'
    → lookup n m'.sessions ≡ some t
    → t.login_status ≡ false
    → NobodyIn m'
OnlyAt-NobodyIn m m' n t nobody others here out j s stored = elim (int-cases j n) [
  | inl same ↦
      ap (λ x. x.login_status)
        (some-injective s t (sym stored ∙ ap (λ x. lookup x m'.sessions) same ∙ here))
      ∙ out
  | inr other ↦ nobody j s (sym (others j other) ∙ stored)
]

new_session_out : (n : ℤ) → (enter (new_session n)).login_status ≡ false
unfolding new_session
new_session_out n = refl

-- A retrieved session is stored and is not logged in.
abbrev pub Retrieved : ℤ × SessionManager → Type 0
Retrieved (n, m) =
    NobodyIn m × ((s : Session) × lookup n m.sessions ≡ some s × s.login_status ≡ false)

pub retrieve_session-Retrieved :
    (cookie : Text) (m : SessionManager)
    → NobodyIn m
    → Returns Retrieved (retrieve_session cookie m)
retrieve_session-Retrieved cookie m nobody = elim (retrieve_session-Reached cookie m) [
  | inl (x, _, e) ↦ rw e tt
  | inr (n, m', e, inl f, others) ↦
      let out = nobody n f.session f.stored in
      rw e (
        OnlyAt-NobodyIn m m' n (enter f.session) nobody others f.entered out,
        (enter f.session, f.entered, out),
      )
  | inr (n, m', e, inr c, others) ↦ rw e (
    OnlyAt-NobodyIn m m' n (enter (new_session n)) nobody others c.entered (new_session_out n),
    (enter (new_session n), c.entered, new_session_out n),
  )
]

pub update_session-NobodyIn :
    (n : ℤ) (f : Session → Session) (m : SessionManager)
    → NobodyIn m
    → ((s : Session) → s.login_status ≡ false → (f s).login_status ≡ false)
    → NobodyIn (update_session n f m)
update_session-NobodyIn n f m nobody keeps = elim (Option-cases (lookup n m.sessions)) [
  | inl absent ↦ rw (update_session-absent n f m absent) nobody
  | inr (s, here) ↦
      OnlyAt-NobodyIn m (update_session n f m) n (f s) nobody (update_session-OnlyAt n f m)
        (update_session_here n f m s here) (keeps s (nobody n s here))
]

pub remove_session-NobodyIn :
    (n : ℤ) (m : SessionManager) → NobodyIn m → NobodyIn (remove_session n m).1
unfolding remove_session
remove_session-NobodyIn n m nobody = elim (Option-cases (lookup n m.sessions)) [
  | inl absent ↦ rw (absent, remove_session) nobody
  | inr (s, here) ↦
      rw (here, remove_session) (λ j t stored. nobody j t (erased_lookup n j t m.sessions stored))
]

-- The answers that refuse a request.
abbrev pub IsRefusal : Message → Type 0
IsRefusal msg = msg.status ≡ false

pub All-append_one :
    {A : Type 0} (P : A → Type 0) (xs : List A) (y : A) → All P xs → P y → All P (xs ++ y ∷ [])
All-append_one P [] y h p = (p, tt)
All-append_one P (x ∷ xs) y h p = (h.0, All-append_one P xs y h.1 p)

pub session_at-out :
    (n : ℤ) (m : SessionManager) → Retrieved (n, m) → (session_at n m).login_status ≡ false
unfolding session_at
session_at-out n m (nobody, (s, stored, out)) = rw (stored, session_at) out

pub pause_session-NobodyIn :
    (cookie : Text) (m : SessionManager) → NobodyIn m → Returns NobodyIn (pause_session cookie m)
unfolding pause_session
pause_session-NobodyIn cookie m nobody =
    Returns-bind Retrieved NobodyIn (retrieve_session cookie m) _
      (retrieve_session-Retrieved cookie m nobody)
      λ r h. update_session-NobodyIn r.0 leave r.1 h.0 (leave_out)
  where
    leave_out : (s : Session) → s.login_status ≡ false → (leave s).login_status ≡ false
    leave_out s h = ground arith
