-- ===== src/Server/SessionManager.antt =====
-- server/Session_manager.h and server/Session_manager.cpp. A session object is shared through
-- pointers; here a pointer is the number of the session, and the object stands in the map.
pub mod Laws
pub mod Numbering
pub mod Cookies
use pds_progetto.Base.{
  ℕ, zero, suc, ◌+◌, ◌-◌, Text, Bool, true, false, Option, none, some, List, [], ◌∷◌, ◌&&◌, leb,
  ◌==◌, if◌then◌else◌, int_eq,
}
use pds_progetto.Base.Int.{ℤ, pos, negsuc, ◌==ℤ◌}
use pds_progetto.Base.Dict.{Dict, lookup, assign, erase}
use pds_progetto.Cpp.Result.{Result, ok, throws, ◌>>=◌}
use pds_progetto.Cpp.Numbers.{stoi}
use pds_progetto.Comm.Utils.{verify_cookie}
use pds_progetto.Server.Session.{Session, new_session}

pub record SessionManager : Type 0 where
  pub session_counter : ℤ
  pub sessions : Dict ℤ Session

unfoldable pub new_manager : SessionManager
new_manager = record { session_counter = pos 1; sessions = [] }

-- `++` of an `atomic_int`, which wraps round.
unfoldable pub next_id : ℤ → ℤ
next_id (pos n) = if n == 2147483647 then negsuc 2147483647 else pos (n + 1)
next_id (negsuc zero) = pos 0
next_id (negsuc (suc n)) = negsuc n

-- `--` of it.
unfoldable pub prev_id : ℤ → ℤ
prev_id (pos n) = if n == 0 then negsuc 0 else pos (n - 1)
prev_id (negsuc n) = if n == 2147483647 then pos 2147483647 else negsuc (n + 1)

-- `std::isdigit(cookie[0])`; the character after an empty text is the zero byte.
unfoldable pub starts_with_digit : Text → Bool
starts_with_digit [] = false
starts_with_digit (c ∷ s) = leb b'0' c && leb c b'9'

unfoldable pub add_session : SessionManager → ℤ × SessionManager
unfolding next_id new_session
add_session m = (
  m.session_counter,
  record {
    session_counter = next_id m.session_counter;
    sessions = assign m.session_counter (new_session m.session_counter) m.sessions;
  },
)

-- The number that the cookie stands for, if it begins with a digit.
unfoldable pub cookie_id : Text → Result (Option ℤ)
unfolding starts_with_digit
cookie_id plain = if starts_with_digit plain then (do n ← stoi plain; ok (some n)) else ok none

unfoldable pub found : SessionManager → Option ℤ → ℤ × SessionManager
unfolding add_session lookup
found m none = add_session m
found m (some n) = elim (lookup n m.sessions) [ none ↦ add_session m | some s ↦ (n, m) ]

-- `f` applied to the object, if it is in the map.
unfoldable pub update_session : ℤ → (Session → Session) → SessionManager → SessionManager
unfolding lookup assign
update_session n f m = elim (lookup n m.sessions) [
  | none ↦ m
  | some s ↦ record m { sessions = assign n (f s) m.sessions }
]

abbrev pub enter : Session → Session
enter s = record s { thread_count = next_id s.thread_count }

abbrev pub leave : Session → Session
leave s = if s.thread_count ==ℤ pos 0 then s else record s { thread_count = prev_id s.thread_count }

-- `retrieve_session` of a message with this cookie.
unfoldable pub retrieve_session : Text → SessionManager → Result (ℤ × SessionManager)
unfolding cookie_id found update_session verify_cookie
retrieve_session cookie m = do
  id ← cookie_id (verify_cookie cookie)
  let (n, m') = found m id
  ok (n, update_session n enter m')

unfoldable pub pause_session : Text → SessionManager → Result SessionManager
unfolding retrieve_session
pause_session cookie m = do (n, m') ← retrieve_session cookie m; ok (update_session n leave m')

unfoldable pub remove_session : ℤ → SessionManager → Bool × SessionManager
unfolding lookup erase
remove_session n m = elim (lookup n m.sessions) [
  | none ↦ (false, m)
  | some s ↦ (true, record m { sessions = erase n m.sessions })
]

unfoldable pub get_empty_session : Session
unfolding new_session
get_empty_session = new_session (negsuc 0)
