-- ===== src/Comm/Socket/Attempts.antt =====
-- The retry loop of `Socket_API::call_` of comm/Socket_API.cpp.
use pds_progetto.Comm.Socket.{
  Asio, Performed, attempts, Socket, attempted, call, usable, performed, failed_with,
}
use pds_progetto.Cpp.Effect.{Effect}
use pds_progetto.Comm.Message.Archive.{Archive}
use pds_progetto.Base.{
  ℕ, Option, ◌≤◌, suc, ◌+◌, ◌≡◌, some, arith, none, zero, refl, Bool-cases, inr, inl, ap,
}
use pds_progetto.Comm.CommError.{CommError}
use pds_progetto.Cpp.Result.{Result, ok, throws}

-- How often an operation has run.
pub record IsCounted (A : Asio) {B : Type 0} (perform : Effect A.State (Performed B)) : Type 0 where
  pub runs : A.State → ℕ
  pub once : (x : A.State) → runs (perform x).1 ≤ suc (runs x)

module _ (A : Asio) (N : Archive) {B : Type 0} (perform : Effect A.State (Performed B))
    (c : IsCounted A perform) where
  -- The error that is known after a failure.
  abbrev pub IsExplained : Option B → Socket A N → Type 0
  IsExplained none s = (e : CommError) × s.last_error ≡ some e
  IsExplained (some b) s = Unit

  -- At most so many runs of the operation.
  abbrev Within : ℕ → Option B × Socket A N → Type 0
  Within bound (b, s) = (c.runs s.net ≤ bound) × IsExplained b s

  attempted-Within :
      (again : Socket A N → Option B × Socket A N) (bound : ℕ) (s : Socket A N)
      (r : Result (Performed B)) (net : A.State)
      → c.runs net ≤ bound
      → ((t : Socket A N)
          → t.net ≡ net
          → (e : CommError) → t.last_error ≡ some e
          → Within bound (again t))
      → Within bound (attempted A N again s (r, net))
  unfolding attempted
  attempted-Within again bound s (throws e) net few next = (few, (_, refl))
  attempted-Within again bound s (ok (performed b)) net few next = (few, tt)
  attempted-Within again bound s (ok (failed_with ec)) net few next = next _ refl _ refl

  attempts-Within :
      (left : ℕ) (s : Socket A N)
      → (left ≡ 0 → (e : CommError) × s.last_error ≡ some e)
      → Within (c.runs s.net + left) (attempts A N perform left s)
  unfolding attempts
  attempts-Within zero s known = (omega arith, known refl)
  attempts-Within (suc left) s known = elim (Bool-cases (usable A N s)) [
    | inr closed ↦ rw (closed, attempts) (omega arith, (_, refl))
    | inl opened ↦
        rw (opened, attempts)
          (attempted-Within (attempts A N perform left) _ s (perform s.net).0 (perform s.net).1
            (omega (arith, c.once s.net))
            λ t here e why.
              let ih = attempts-Within left t (λ _. (e, why)) in
              (omega (arith, ih.0, ap c.runs here, c.once s.net), ih.1))
  ]

  -- `call_` runs an operation at most `n_retry_ + 1` times, and where it fails an error is known.
  pub call-Within :
      (s : Socket A N)
      → (r : Option B) × (t : Socket A N) × (call A N perform s ≡ (ok r, t))
        × (c.runs t.net ≤ c.runs s.net + suc s.n_retry)
        × IsExplained r t
  unfolding call
  call-Within s =
      let h = attempts-Within (suc s.n_retry) s (λ none_left. ground arith) in
      (
        (attempts A N perform (suc s.n_retry) s).0,
        (attempts A N perform (suc s.n_retry) s).1,
        refl,
        h.0,
        h.1,
      )
