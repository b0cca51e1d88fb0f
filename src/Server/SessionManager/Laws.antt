-- ===== src/Server/SessionManager/Laws.antt =====
-- Which session a cookie leads to, and what the session map keeps.
use pds_progetto.Base.{
  Text, Option, none, some, int_eq, ◌≡◌, ◌≢◌, refl, ◌∙◌, ◌⊎◌, inl, inr, arith, Option-cases,
}
use pds_progetto.Base.Int.{ℤ, ==ℤ_iff}
use pds_progetto.Base.Dict.{Dict, lookup, assign, lookup-assign}
use pds_progetto.Cpp.Result.{Exception, Result-cases, ok, throws}
use pds_progetto.Server.Session.{Session, new_session}
use pds_progetto.Server.SessionManager.{
  SessionManager, next_id, add_session, cookie_id, found, update_session, enter, retrieve_session,
}
use pds_progetto.Comm.Utils.{verify_cookie}

-- The request reaches the object that its cookie names.
pub record Found (cookie : Text) (m : SessionManager) (n : ℤ) (m' : SessionManager) : Type 0 where
  pub session : Session
  pub named : cookie_id cookie ≡ ok (some n)
  pub stored : lookup n m.sessions ≡ some session
  pub entered : lookup n m'.sessions ≡ some (enter session)
  pub counter : m'.session_counter ≡ m.session_counter

-- The request reaches a new object, under the next number.
pub record Created (m : SessionManager) (n : ℤ) (m' : SessionManager) : Type 0 where
  pub numbered : n ≡ m.session_counter
  pub counter : m'.session_counter ≡ next_id m.session_counter
  pub entered : lookup n m'.sessions ≡ some (enter (new_session n))

-- The entries under the other numbers are those of before.
abbrev pub OnlyAt : ℤ → SessionManager → SessionManager → Type 0
OnlyAt n m m' = (j : ℤ) → j ≢ n → lookup j m'.sessions ≡ lookup j m.sessions

assign_here : (n : ℤ) (s : Session) (d : Dict ℤ Session) → lookup n (assign n s d) ≡ some s
assign_here n s d = rw (lookup-assign n n s d) (ground (arith, ==ℤ_iff n n))

assign_elsewhere :
    (n j : ℤ) (s : Session) (d : Dict ℤ Session) → j ≢ n → lookup j (assign n s d) ≡ lookup j d
assign_elsewhere n j s d ne = rw (lookup-assign n j s d) (ground (arith, ==ℤ_iff n j))

pub update_session-stored :
    (n : ℤ) (f : Session → Session) (m : SessionManager) (s : Session)
    → lookup n m.sessions ≡ some s
    → update_session n f m ≡ record m { sessions = assign n (f s) m.sessions }
unfolding update_session
update_session-stored n f m s h = rw (h, update_session) refl

pub update_session-absent :
    (n : ℤ) (f : Session → Session) (m : SessionManager)
    → lookup n m.sessions ≡ none
    → update_session n f m ≡ m
unfolding update_session
update_session-absent n f m h = rw (h, update_session) refl

pub update_session_here :
    (n : ℤ) (f : Session → Session) (m : SessionManager) (s : Session)
    → lookup n m.sessions ≡ some s
    → lookup n (update_session n f m).sessions ≡ some (f s)
update_session_here n f m s h =
    rw (update_session-stored n f m s h) (assign_here n (f s) m.sessions)

pub update_session_counter :
    (n : ℤ) (f : Session → Session) (m : SessionManager)
    → (update_session n f m).session_counter ≡ m.session_counter
update_session_counter n f m = elim (Option-cases (lookup n m.sessions)) [
  | inl absent ↦ rw (update_session-absent n f m absent) refl
  | inr (s, here) ↦ rw (update_session-stored n f m s here) refl
]

pub update_session-OnlyAt :
    (n : ℤ) (f : Session → Session) (m : SessionManager) → OnlyAt n m (update_session n f m)
update_session-OnlyAt n f m j ne = elim (Option-cases (lookup n m.sessions)) [
  | inl absent ↦ rw (update_session-absent n f m absent) refl
  | inr (s, here) ↦
      rw (update_session-stored n f m s here) (assign_elsewhere n j (f s) m.sessions ne)
]

added_lookup :
    (m : SessionManager)
    → lookup m.session_counter (add_session m).1.sessions ≡ some (new_session m.session_counter)
unfolding add_session
added_lookup m = assign_here m.session_counter (new_session m.session_counter) m.sessions

Reached : Text → SessionManager → ℤ × SessionManager → Type 0
Reached cookie m (n, m') = (Found cookie m n m' ⊎ Created m n m') × OnlyAt n m m'

unfoldable pub entered : ℤ × SessionManager → ℤ × SessionManager
entered (n, m) = (n, update_session n enter m)

pub add_session-OnlyAt : (m : SessionManager) → OnlyAt m.session_counter m (add_session m).1
unfolding add_session
add_session-OnlyAt m j ne =
    assign_elsewhere m.session_counter j (new_session m.session_counter) m.sessions ne

add_session_counter :
    (m : SessionManager) → (add_session m).1.session_counter ≡ next_id m.session_counter
unfolding add_session
add_session_counter m = refl

add_session_number : (m : SessionManager) → (add_session m).0 ≡ m.session_counter
unfolding add_session
add_session_number m = refl

pub add_session-Created :
    (m : SessionManager)
    → Created m m.session_counter (update_session m.session_counter enter (add_session m).1)
add_session-Created m = record {
  numbered = refl;
  counter =
      update_session_counter m.session_counter enter (add_session m).1 ∙ add_session_counter m;
  entered =
      update_session_here m.session_counter enter (add_session m).1 (new_session m.session_counter)
        (added_lookup m);
}

add_session-Reached :
    (cookie : Text) (m : SessionManager) → Reached cookie m (entered (add_session m))
unfolding Reached entered add_session
add_session-Reached cookie m = (
  inr (add_session-Created m),
  λ j ne.
      update_session-OnlyAt m.session_counter enter (add_session m).1 j ne
      ∙ add_session-OnlyAt m j ne,
)

found_session-Reached :
    (cookie : Text) (m : SessionManager) (n : ℤ) (s : Session)
    → cookie_id cookie ≡ ok (some n)
    → lookup n m.sessions ≡ some s
    → Reached cookie m (entered (n, m))
unfolding Reached entered
found_session-Reached cookie m n s named here = (
  inl (record {
    session = s;
    named = named;
    stored = here;
    entered = update_session_here n enter m s here;
    counter = update_session_counter n enter m;
  }),
  update_session-OnlyAt n enter m,
)

found-Reached :
    (cookie : Text) (m : SessionManager) (id : Option ℤ)
    → cookie_id cookie ≡ ok id
    → Reached cookie m (entered (found m id))
unfolding found
found-Reached cookie m none e = add_session-Reached cookie m
found-Reached cookie m (some n) e = elim (Option-cases (lookup n m.sessions)) [
  | inl absent ↦ rw (absent, found) (add_session-Reached cookie m)
  | inr (s, here) ↦ rw (here, found) (found_session-Reached cookie m n s e here)
]

pub retrieve_session_returns :
    (cookie : Text) (m : SessionManager) (id : Option ℤ)
    → cookie_id cookie ≡ ok id
    → retrieve_session cookie m ≡ ok (entered (found m id))
unfolding retrieve_session entered verify_cookie
retrieve_session_returns cookie m id e = rw (e, verify_cookie) refl

pub retrieve_session_throws :
    (cookie : Text) (m : SessionManager) (x : Exception)
    → cookie_id cookie ≡ throws x
    → retrieve_session cookie m ≡ throws x
unfolding retrieve_session verify_cookie
retrieve_session_throws cookie m x e = rw (e, verify_cookie) refl

reached :
    (cookie : Text) (m : SessionManager) (id : Option ℤ)
    → retrieve_session cookie m ≡ ok (entered (found m id))
    → Reached cookie m (entered (found m id))
    → (n : ℤ) × (m' : SessionManager) × retrieve_session cookie m ≡ ok (n, m')
      × (Found cookie m n m' ⊎ Created m n m')
      × OnlyAt n m m'
unfolding Reached entered
reached cookie m id e (kind, others) =
    ((found m id).0, update_session (found m id).0 enter (found m id).1, e, kind, others)

-- `retrieve_session` fails only if `std::stoi` fails on the cookie. If it returns, either the
-- cookie is the number of a stored session, and the request gets that object and the counter
-- stays, or the request gets a new session that is not logged in, under the counter's number, and
-- the counter moves on. In both cases the sessions with other numbers are untouched.
pub retrieve_session-Reached :
    (cookie : Text) (m : SessionManager)
    → ((e : Exception) × cookie_id cookie ≡ throws e × retrieve_session cookie m ≡ throws e)
      ⊎ ((n : ℤ) × (m' : SessionManager) × retrieve_session cookie m ≡ ok (n, m')
          × (Found cookie m n m' ⊎ Created m n m')
          × OnlyAt n m m')
retrieve_session-Reached cookie m = elim (Result-cases (cookie_id cookie)) [
  | inl (x, e) ↦ inl (x, e, retrieve_session_throws cookie m x e)
  | inr (id, e) ↦
      inr
        (reached cookie m id (retrieve_session_returns cookie m id e) (found-Reached cookie m id e))
]
