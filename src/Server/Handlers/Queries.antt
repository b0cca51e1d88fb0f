-- ===== src/Server/Handlers/Queries.antt =====
-- The number of running connections of server/Server.cpp.
use pds_progetto.Base.{ℕ, suc, ◌≤◌, arith, ◌≡◌, ◌↔◌}
use pds_progetto.Server.Handlers.{accept, max_threads, discarded}

-- What happens to the number of running connections: the loop accepts one, or one ends.
pub data ThreadStep : ℕ → ℕ → Type 0 where
  accepted : (n : ℕ) → ThreadStep n (accept n).1
  ended : (n : ℕ) → ThreadStep (suc n) n

pub data Threads : ℕ → Type 0 where
  started : Threads 0
  then_step : {n k : ℕ} → Threads n → ThreadStep n k → Threads k

accept-le : (n : ℕ) → n ≤ max_threads → (accept n).1 ≤ max_threads
unfolding accept
accept-le n h = ground arith

step-le : {n k : ℕ} → ThreadStep n k → n ≤ max_threads → k ≤ max_threads
step-le (accepted n) h = accept-le n h
step-le (ended n) h = omega arith

-- However connections begin and end, at most `MAX_THREADS` of them run, and one is discarded exactly
-- when that many run.
pub Threads-le-max_threads :
    (n : ℕ) → Threads n → (n ≤ max_threads) × (((accept n).0 ≡ discarded) ↔ (n ≡ max_threads))
unfolding accept
Threads-le-max_threads n t = let h = bounded n t in (h, (λ d. ground arith, λ e. ground arith))
  where
    bounded : (n : ℕ) → Threads n → n ≤ max_threads
    bounded _ started = omega arith
    bounded _ (then_step t s) = step-le s (bounded _ t)
