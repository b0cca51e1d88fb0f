-- ===== src/Comm/ServerApi/Login.antt =====
-- From an accepted login to the next request: the cookie of the answer leads to the session that
-- is logged in.
use pds_progetto.Server.Session.{Session, is_logged_in, get_cookie, new_session}
use pds_progetto.Server.SessionManager.{SessionManager, update_session, retrieve_session, enter}
use pds_progetto.Comm.ServerApi.{
  Handlers, serve, serve_for, respond, session_at, do_login, Connection, answer, with_cookie,
  is_login,
}
use pds_progetto.Base.{
  true, ◌≡◌, some, arith, ◌∙◌, refl, int_eq, sym, Bool, false, ◌<◌, if◌then◌else◌, not, ◌++◌, ◌&&◌,
  ◌∷◌, [], ap, Text, subst, ◌⊎◌, inl, inr,
}
use pds_progetto.Base.Int.{ℤ, pos}
use pds_progetto.Server.SessionManager.Numbering.{IsNumbered, entry-IsNumbered}
use pds_progetto.Base.Dict.{lookup}
use pds_progetto.Comm.Message.{Message, msg_login, okay}
use pds_progetto.Cpp.Result.{ok, ok_not_throws, ok_injective}
use pds_progetto.Server.SessionManager.Laws.{
  update_session_counter, update_session-OnlyAt, update_session_here, Found, Created,
  retrieve_session-Reached,
}
use pds_progetto.Cpp.Result.{◌>>=◌}
use pds_progetto.Server.SessionManager.Cookies.{retrieve_session-get_cookie}

abbrev pub logged : Session → Session
logged s = record s { login_status = true }

-- Writing back an object with the number of its entry keeps the numbering.
update_session-IsNumbered :
    (m : SessionManager) (n : ℤ) (s t : Session)
    → IsNumbered m
    → lookup n m.sessions ≡ some s
    → t.session_id ≡ n
    → IsNumbered (update_session n (λ _. t) m)
update_session-IsNumbered m n s t i stored id =
    let (_, k, number, lower) = i.below n s stored in
    entry-IsNumbered m (update_session n (λ _. t) m) n t k i.next i (omega arith)
      (update_session_counter n (λ _. t) m ∙ i.counter) (update_session-OnlyAt n (λ _. t) m)
      (update_session_here n (λ _. t) m s stored) id number lower

same_next :
    (m m' : SessionManager) (i : IsNumbered m) (j : IsNumbered m')
    → m'.session_counter ≡ m.session_counter
    → j.next ≡ i.next
same_next m m' i j same = let e : pos j.next ≡ pos i.next = sym j.counter ∙ same ∙ i.counter in cc

-- What `retrieve_session` returns is stored.
retrieved_entry :
    (cookie : Text) (m m' : SessionManager) (n : ℤ)
    → retrieve_session cookie m ≡ ok (n, m')
    → (s : Session) × lookup n m'.sessions ≡ some s
retrieved_entry cookie m m' n got = elim (retrieve_session-Reached cookie m) [
  | inl (x, _, failed) ↦ let no_result = ok_not_throws (sym got ∙ failed) in cc
  | inr (n2, m2, returned, kind, _) ↦
      let same = ok_injective (sym returned ∙ got) in
      subst (λ (r : ℤ × SessionManager). (s : Session) × lookup r.0 r.1.sessions ≡ some s) same
        (entry n2 m2 kind)
]
  where
    entry :
        (n2 : ℤ) (m2 : SessionManager)
        → Found cookie m n2 m2 ⊎ Created m n2 m2
        → (s : Session) × lookup n2 m2.sessions ≡ some s
    entry n2 m2 (inl f) = (enter f.session, f.entered)
    entry n2 m2 (inr c) = (enter (new_session n2), c.entered)

module _ {W : Type 0} (H : Handlers W) where
  -- The request of an accepted login, for the session `n` that `retrieve_session` stored.
  login_served :
      (req : Message) (c : Connection W) (n : ℤ) (m : SessionManager) (s : Session) (w : W)
      → req.code ≡ msg_login
      → retrieve_session req.cookie c.manager ≡ ok (n, m)
      → H.login (session_at n m) req.username req.password c.world ≡ ok (true, s, w)
      → serve H req c ≡ ok (true, answer H req n m c (okay, logged s, w))
  unfolding serve serve_for respond do_login
  login_served req c n m s w code got accepted = rw (got, code, serve_for) (rw (accepted) refl)

  -- A request of a session that is logged in is passed on to its handler.
  in_served :
      (req : Message) (c : Connection W) (n : ℤ) (m : SessionManager) (s : Session)
      → retrieve_session req.cookie c.manager ≡ ok (n, m)
      → lookup n m.sessions ≡ some s
      → s.login_status ≡ true
      → serve H req c ≡ (respond H req.code s req c.world >>= λ r. ok (true, answer H req n m c r))
  unfolding serve serve_for session_at is_logged_in
  in_served req c n m s got stored inside =
      rw (got) (rw (stored, session_at) (open_to_all _ _ inside (is_login req.code)))
    where
      open_to_all :
          {A : Type 0} (x y : A)
          → s.login_status ≡ true
          → (b : Bool) → (if not b && not s.login_status then x else y) ≡ y
      open_to_all x y h true = refl
      open_to_all x y h false = rw (h) refl

  -- A login on a connection that no request has ended removes no session.
  login_manager :
      (req : Message) (c : Connection W) (n : ℤ) (m : SessionManager) (r : Message × Session × W)
      → req.code ≡ msg_login
      → c.end_session ≡ false
      → (answer H req n m c r).manager ≡ update_session n (λ _. r.1) m
  unfolding answer
  login_manager req c n m r code going = rw (code, going) refl

  -- A login that is accepted, on a connection that no request has ended, for a manager that is
  -- numbered afterwards with fewer than 2^31 sessions begun, is answered by an okay with the cookie
  -- of its session; and any request with this cookie that is served next, in the state right after
  -- the login, is passed on to its handler, for the session that is logged in.
  pub serve-login :
      (req : Message) (c : Connection W) (n : ℤ) (m : SessionManager) (s : Session) (w : W)
      → req.code ≡ msg_login
      → c.end_session ≡ false
      → retrieve_session req.cookie c.manager ≡ ok (n, m)
      → (i : IsNumbered m) → i.next < 2147483648
      → H.login (session_at n m) req.username req.password c.world ≡ ok (true, s, w)
      → s.session_id ≡ n
      → (c' : Connection W) × serve H req c ≡ ok (true, c')
        × c'.world ≡ w
        × c'.sent ≡ c.sent ++ with_cookie (get_cookie (logged s)) okay ∷ []
        × ((next : Message)
            → next.cookie ≡ get_cookie (logged s)
            → (m' : SessionManager) × serve H next c' ≡ (
                respond H next.code (enter (logged s)) next w >>= λ r.
                ok (true, answer H next n m' c' r)))
  unfolding answer
  serve-login req c n m s w code going got i room accepted id =
      let (s0, stored) = retrieved_entry req.cookie c.manager m n got in
      let manager = login_manager req c n m (okay, logged s, w) code going in
      let written = update_session-IsNumbered m n s0 (logged s) i stored id in
      let kept = subst IsNumbered (sym manager) written in
      let same =
        same_next m c'.manager i kept
          (ap (λ k. k.session_counter) manager ∙ update_session_counter n (λ _. logged s) m) in
      (
        c',
        login_served req c n m s w code got accepted,
        refl,
        refl,
        λ next same_cookie.
            let (m', got', here, _, _) =
              retrieve_session-get_cookie c'.manager n (logged s) kept (omega arith) (
                ap (λ k. lookup n k.sessions) manager
                ∙ update_session_here n (λ _. logged s) m s0 stored) in
            (
              m',
              in_served next c' n m' (enter (logged s))
                  (ap (λ k. retrieve_session k c'.manager) same_cookie ∙ got') here refl,
            ),
      )
    where
      c' : Connection W
      c' = answer H req n m c (okay, logged s, w)
