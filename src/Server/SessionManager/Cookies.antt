-- ===== src/Server/SessionManager/Cookies.antt =====
-- The cookie that a session issues, and the way back from it to the session.
use pds_progetto.Base.{
  ℕ, ◌<◌, Text, true, false, none, some, ◌∷◌, ◌==◌, int_eq, ◌≡◌, refl, sym, ap, ◌∙◌, inl, inr,
  arith, ◌≢◌, Bool-cases, suc, zero,
}
use pds_progetto.Base.Int.{ℤ, pos, negsuc, ◌==ℤ◌, IsInt, int-cases}
use pds_progetto.Base.Dict.{lookup}
use pds_progetto.Cpp.Result.{ok}
use pds_progetto.Cpp.Numbers.{digit_char, to_string}
use pds_progetto.Cpp.Numbers.RoundTrip.{stoi-to_string, show_head}
use pds_progetto.Comm.Utils.{sign_cookie}
use pds_progetto.Server.Session.{Session, new_session, get_cookie}
use pds_progetto.Server.SessionManager.{
  SessionManager, next_id, starts_with_digit, add_session, cookie_id, found, update_session, enter,
  leave, retrieve_session, pause_session, prev_id,
}
use pds_progetto.Server.SessionManager.Laws.{
  Created, OnlyAt, retrieve_session_returns, entered, add_session-Created, add_session-OnlyAt,
  update_session_here, update_session-OnlyAt, update_session_counter,
}
use pds_progetto.Server.SessionManager.Numbering.{IsNumbered}

digit_starts : (d : ℕ) (t : Text) → d < 10 → starts_with_digit (digit_char d ∷ t) ≡ true
unfolding starts_with_digit
digit_starts d t h = ground arith

to_string_starts : (k : ℕ) → starts_with_digit (to_string (pos k)) ≡ true
unfolding to_string
to_string_starts k =
    let (d, t, small, e) = show_head 10 (omega arith) (omega arith) k in
    rw (e) (digit_starts d t small)

cookie_id-get_cookie :
    (s : Session) (k : ℕ)
    → s.session_id ≡ pos k
    → k < 2147483648
    → cookie_id (get_cookie s) ≡ ok (some (pos k))
unfolding cookie_id get_cookie sign_cookie
cookie_id-get_cookie s k id small =
    rw (id, to_string_starts k, cookie_id) (rw (stoi-to_string k small) refl)

found_here :
    (m : SessionManager) (n : ℤ) (s : Session)
    → lookup n m.sessions ≡ some s
    → found m (some n) ≡ (n, m)
unfolding found
found_here m n s here = rw (here, found) refl

-- The manager after a request with the cookie of the stored session `n`.
retrieve_session_issued :
    (m : SessionManager) (n : ℤ) (s : Session)
    → (i : IsNumbered m) → i.next < 2147483648
    → lookup n m.sessions ≡ some s
    → retrieve_session (get_cookie s) m ≡ ok (n, update_session n enter m)
unfolding entered
retrieve_session_issued m n s i room here =
    let (id, k, number, lower) = i.below n s here in
    let named =
      cookie_id-get_cookie s k (id ∙ number) (omega arith) ∙ ap (λ j. ok (some j)) (sym number) in
    retrieve_session_returns (get_cookie s) m (some n) named
    ∙ ap (λ p. ok (entered p)) (found_here m n s here)

-- A request with the cookie that a stored session issued reaches that session: its object is
-- entered, no other entry changes and no number is used up.
pub retrieve_session-get_cookie :
    (m : SessionManager) (n : ℤ) (s : Session)
    → (i : IsNumbered m) → i.next < 2147483648
    → lookup n m.sessions ≡ some s
    → (m' : SessionManager) × retrieve_session (get_cookie s) m ≡ ok (n, m')
      × lookup n m'.sessions ≡ some (enter s)
      × m'.session_counter ≡ m.session_counter
      × OnlyAt n m m'
retrieve_session-get_cookie m n s i room here = (
  update_session n enter m,
  retrieve_session_issued m n s i room here,
  update_session_here n enter m s here,
  update_session_counter n enter m,
  update_session-OnlyAt n enter m,
)

next_id-pos : (n : ℕ) → (next_id (pos n) ==ℤ pos 0) ≡ false
unfolding next_id
next_id-pos n = ground arith

prev_id-next_id_pos : (n : ℕ) → prev_id (next_id (pos n)) ≡ pos n
unfolding next_id prev_id
prev_id-next_id_pos n = elim (Bool-cases (n == 2147483647)) [
  | inl last ↦ rw (last) (ground arith)
  | inr below ↦ rw (below) (ground arith)
]

prev_id-negsuc : (n : ℕ) → n < 2147483647 → prev_id (negsuc n) ≡ negsuc (suc n)
unfolding prev_id
prev_id-negsuc n h = ground arith

leave-enter : (s : Session) → IsInt s.thread_count → s.thread_count ≢ negsuc 0 → leave (enter s) ≡ s
unfolding next_id
leave-enter s = counted s.thread_count
  where
    counted :
        (z : ℤ)
        → IsInt z
        → z ≢ negsuc 0
        → leave (record s { thread_count = next_id z }) ≡ record s { thread_count = z }
    counted (pos n) range other = rw (next_id-pos n, prev_id-next_id_pos n) refl
    counted (negsuc zero) range other = absurd (other refl)
    counted (negsuc (suc n)) range other = rw (prev_id-negsuc n (omega arith)) refl

-- `pause_session` with the cookie of a stored session, where the sessions are numbered and fewer
-- than 2^31 were made, succeeds and changes nothing: it counts the call as one more use of the
-- session and takes only that back. The count of the uses is an `int` other than -1, from which
-- counting up gives the zero that is not counted down.
pub pause_session-get_cookie :
    (m : SessionManager) (n : ℤ) (s : Session)
    → (i : IsNumbered m) → i.next < 2147483648
    → lookup n m.sessions ≡ some s
    → IsInt s.thread_count
    → s.thread_count ≢ negsuc 0
    → (m' : SessionManager) × pause_session (get_cookie s) m ≡ ok m'
      × m'.session_counter ≡ m.session_counter
      × ((j : ℤ) → lookup j m'.sessions ≡ lookup j m.sessions)
unfolding pause_session
pause_session-get_cookie m n s i room here range counted = (
  m2,
  rw (retrieve_session_issued m n s i room here) refl,
  update_session_counter n leave m1 ∙ update_session_counter n enter m,
  λ j. elim (int-cases j n) [
    | inl same ↦
        ap (λ x. lookup x m2.sessions) same ∙ same_entry ∙ ap (λ x. lookup x m.sessions) (sym same)
    | inr other ↦ update_session-OnlyAt n leave m1 j other ∙ update_session-OnlyAt n enter m j other
  ],
)
  where
    m1 : SessionManager
    m1 = update_session n enter m

    m2 : SessionManager
    m2 = update_session n leave m1

    same_entry : lookup n m2.sessions ≡ lookup n m.sessions
    same_entry =
        update_session_here n leave m1 (enter s) (update_session_here n enter m s here)
        ∙ ap some (leave-enter s range counted)
        ∙ sym here

unnamed : (cookie : Text) → starts_with_digit cookie ≡ false → cookie_id cookie ≡ ok none
unfolding cookie_id
unnamed cookie h = rw (h, cookie_id) refl

retrieve_unnamed :
    (cookie : Text) (m : SessionManager)
    → starts_with_digit cookie ≡ false
    → retrieve_session cookie m
      ≡ ok (m.session_counter, update_session m.session_counter enter (add_session m).1)
unfolding found entered add_session
retrieve_unnamed cookie m h = retrieve_session_returns cookie m none (unnamed cookie h)

-- `pause_session` with a cookie that does not begin with a digit, such as the empty cookie of a
-- login request, adds one more session, under the next number, that no request uses.
pub pause_session-unnamed :
    (cookie : Text) (m : SessionManager)
    → starts_with_digit cookie ≡ false
    → (m' : SessionManager) × pause_session cookie m ≡ ok m'
      × m'.session_counter ≡ next_id m.session_counter
      × lookup m.session_counter m'.sessions ≡ some (new_session m.session_counter)
      × OnlyAt m.session_counter m m'
unfolding pause_session
pause_session-unnamed cookie m h = (
  update_session n leave m1,
  rw (retrieve_unnamed cookie m h) refl,
  update_session_counter n leave m1 ∙ created.counter,
  update_session_here n leave m1 (enter (new_session n)) created.entered
      ∙ ap some (leave-enter (new_session n) (omega arith) no_use),
  λ j other.
      update_session-OnlyAt n leave m1 j other
      ∙ update_session-OnlyAt n enter (add_session m).1 j other
      ∙ add_session-OnlyAt m j other,
)
  where
    n : ℤ
    n = m.session_counter

    m1 : SessionManager
    m1 = update_session n enter (add_session m).1

    no_use : pos 0 ≢ negsuc 0
    no_use = ground arith

    created : Created m n m1
    created = add_session-Created m
