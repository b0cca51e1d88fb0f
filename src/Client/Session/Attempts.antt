-- ===== src/Client/Session/Attempts.antt =====
-- The attempts to log in of `Client::pwdAttempts` of client/Client.cpp.
use pds_progetto.Client.Session.{login, Client, tries_from, pwd_attempts, max_attempts, on_api}
use pds_progetto.Cpp.Effect.{◌>>=◌, pure, Effect}
use pds_progetto.Comm.ClientApi
use pds_progetto.Cpp.Files.{Files}
use pds_progetto.Comm.Utils.{Sha256}
use pds_progetto.Comm.ClientApi.{ClientSocket}
use pds_progetto.Base.{
  ℕ, Text, Bool, ◌≡◌, ◌+◌, ◌<◌, suc, false, true, arith, if◌then◌else◌, zero, refl, subst,
}
use pds_progetto.Cpp.Result.{Result, ok, Exception, throws}

module _ (F : Files) (H : Sha256) (A : ClientSocket) (typed : ℕ → Text × Text) where
  abbrev attempt : ℕ → Effect (Client F H A) Bool
  attempt n = login F H A (typed n).0 (typed n).1

  -- The first `n` logins were refused.
  pub data Refused : ℕ → Client F H A → Client F H A → Type 0 where
    none_yet : (s : Client F H A) → Refused 0 s s
    refused :
        {n : ℕ} {s t u : Client F H A}
        → Refused n s t
        → attempt n t ≡ (ok false, u)
        → Refused (suc n) s u

  -- The end of the session, whose answer is not looked at.
  abbrev given_up : Effect (Client F H A) Bool
  given_up = do ret_val ← on_api F H A (ClientApi.end F A); pure false

  pub data Attempted (s : Client F H A) : Result Bool × Client F H A → Type 0 where
    let_in :
        (n : ℕ) (t u : Client F H A)
        → n < max_attempts
        → Refused n s t
        → attempt n t ≡ (ok true, u)
        → Attempted s (ok true, u)
    broken :
        (n : ℕ) (e : Exception) (t u : Client F H A)
        → n < max_attempts
        → Refused n s t
        → attempt n t ≡ (throws e, u)
        → Attempted s (throws e, u)
    shut_out : (t : Client F H A) → Refused max_attempts s t → Attempted s (given_up t)

  after_attempt :
      (n : ℕ) (s t : Client F H A) (r : Result Bool) (u : Client F H A)
      (again : Effect (Client F H A) Bool)
      → n < max_attempts
      → Refused n s t
      → attempt n t ≡ (r, u)
      → (Refused (suc n) s u → Attempted s (again u))
      → Attempted s
          (elim r [ ok a ↦ (if a then pure true else again) u | throws e ↦ (throws e, u) ])
  unfolding pure
  after_attempt n s t (ok true) u again few before e next = let_in n t u few before e
  after_attempt n s t (ok false) u again few before e next = next (refused before e)
  after_attempt n s t (throws x) u again few before e next = broken n x t u few before e

  tries_from-Attempted :
      (left n : ℕ) (s t : Client F H A)
      → n + left ≡ max_attempts
      → Refused n s t
      → Attempted s (tries_from F H A typed n left t)
  unfolding tries_from ◌>>=◌ pure
  tries_from-Attempted zero n s t all before =
      shut_out t (subst (λ k. Refused k s t) (omega (arith, all)) before)
  tries_from-Attempted (suc left) n s t all before =
      after_attempt n s t (attempt n t).0 (attempt n t).1 (tries_from F H A typed (suc n) left)
        (omega (arith, all)) before refl
        λ more. tries_from-Attempted left (suc n) s (attempt n t).1 (omega (arith, all)) more

  -- `pwdAttempts` returns true, or throws, exactly as one of the first `MAX_ATTEMPTS` logins does,
  -- all before it refused, and no login follows; or all of them were refused, and it ends the session
  -- and returns false.
  pub pwd_attempts-Attempted : (s : Client F H A) → Attempted s (pwd_attempts F H A typed s)
  unfolding pwd_attempts
  pwd_attempts-Attempted s = tries_from-Attempted max_attempts 0 s s refl (none_yet s)
