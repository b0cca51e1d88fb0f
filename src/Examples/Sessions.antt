-- ===== src/Examples/Sessions.antt =====
-- Sessions and cookies at concrete inputs.
use pds_progetto.Base.{
  ℕ, ◌<◌, true, false, none, some, [], ◌∷◌, codes, ◌≡◌, ◌⊎◌, refl, sym, ap, ◌∙◌, arith, int_eq,
}
use pds_progetto.Base.Int.{ℤ, pos, ==ℤ_iff}
use pds_progetto.Base.Dict.{lookup, assign}
use pds_progetto.Cpp.Result.{Exception, ok, throws, out_of_range}
use pds_progetto.Cpp.Numbers.{stoi}
use pds_progetto.Server.Session.{Session, new_session, get_cookie}
use pds_progetto.Server.SessionManager.{
  SessionManager, next_id, starts_with_digit, cookie_id, enter, retrieve_session, pause_session,
  remove_session,
}
use pds_progetto.Server.SessionManager.Laws.{Found, Created, OnlyAt, retrieve_session-Reached}
use pds_progetto.Server.SessionManager.Numbering.{
  IsNumbered, retrieve_session-IsNumbered, remove_session-IsNumbered,
}
use pds_progetto.Server.SessionManager.Cookies.{
  retrieve_session-get_cookie, pause_session-get_cookie, pause_session-unnamed,
}

abbrev logged_in : Session
logged_in = record {
  session_id = pos 1;
  user = codes "ann";
  login_status = true;
  thread_count = pos 0;
  active_thread = false;
}

-- A manager with one session.
abbrev one_session : SessionManager
one_session = record { session_counter = pos 2; sessions = (pos 1, logged_in) ∷ [] }

entry_of_one :
    (j : ℤ) (s : Session) → lookup j one_session.sessions ≡ some s → (logged_in ≡ s) × (pos 1 ≡ j)
unfolding lookup
entry_of_one j s e = ground (arith, ==ℤ_iff (pos 1) j)

pub one_entry :
    (j : ℤ) (s : Session)
    → lookup j one_session.sessions ≡ some s
    → s.session_id ≡ j × (k : ℕ) × j ≡ pos k × k < 2
one_entry j s e =
    let (here, same) = entry_of_one j s e in
    (ap (λ x. x.session_id) (sym here) ∙ same, 1, sym same, omega arith)

abbrev one_session-IsNumbered : IsNumbered one_session
one_session-IsNumbered = record { next = 2; counter = refl; below = one_entry }

retrieve_session-Reached_example :
    ((e : Exception) × cookie_id (codes "1") ≡ throws e
      × retrieve_session (codes "1") one_session ≡ throws e)
    ⊎ ((n : ℤ) × (m' : SessionManager) × retrieve_session (codes "1") one_session ≡ ok (n, m')
        × (Found (codes "1") one_session n m' ⊎ Created one_session n m')
        × OnlyAt n one_session m')
retrieve_session-Reached_example = retrieve_session-Reached (codes "1") one_session

abbrev two_sessions : SessionManager
two_sessions = record {
  session_counter = pos 3;
  sessions = (pos 1, logged_in) ∷ (pos 2, enter (new_session (pos 2))) ∷ [];
}

retrieve_session-IsNumbered_example : IsNumbered two_sessions
unfolding retrieve_session stoi new_session lookup assign
retrieve_session-IsNumbered_example =
    retrieve_session-IsNumbered [] one_session (pos 2) two_sessions one_session-IsNumbered
      (omega arith) refl

remove_session-IsNumbered_example :
    IsNumbered (remove_session (pos 1) one_session).1
    × lookup (pos 1) (remove_session (pos 1) one_session).1.sessions ≡ none
remove_session-IsNumbered_example =
    remove_session-IsNumbered (pos 1) one_session one_session-IsNumbered

first_session : lookup (pos 1) one_session.sessions ≡ some logged_in
unfolding lookup
first_session = refl

retrieve_session-get_cookie_example :
    (m' : SessionManager) × retrieve_session (get_cookie logged_in) one_session ≡ ok (pos 1, m')
    × lookup (pos 1) m'.sessions ≡ some (enter logged_in)
    × m'.session_counter ≡ pos 2
    × OnlyAt (pos 1) one_session m'
retrieve_session-get_cookie_example =
    retrieve_session-get_cookie one_session (pos 1) logged_in one_session-IsNumbered (omega arith)
      first_session

pause_session-get_cookie_example :
    (m' : SessionManager) × pause_session (get_cookie logged_in) one_session ≡ ok m'
    × m'.session_counter ≡ pos 2
    × ((j : ℤ) → lookup j m'.sessions ≡ lookup j one_session.sessions)
pause_session-get_cookie_example =
    pause_session-get_cookie one_session (pos 1) logged_in one_session-IsNumbered (omega arith)
      first_session (omega arith) (ground arith)

no_digit : starts_with_digit [] ≡ false
unfolding starts_with_digit
no_digit = refl

pause_session-unnamed_example :
    (m' : SessionManager) × pause_session [] one_session ≡ ok m'
    × m'.session_counter ≡ next_id (pos 2)
    × lookup (pos 2) m'.sessions ≡ some (new_session (pos 2))
    × OnlyAt (pos 2) one_session m'
pause_session-unnamed_example = pause_session-unnamed [] one_session no_digit

test_overflow : retrieve_session (codes "9999999999") one_session ≡ throws out_of_range
unfolding retrieve_session stoi
test_overflow = refl
