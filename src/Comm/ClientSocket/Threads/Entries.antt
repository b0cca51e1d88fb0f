-- ===== src/Comm/ClientSocket/Threads/Entries.antt =====
-- The map of the threads of comm/Client_socket_API.cpp: its numbers, and how many of the threads run.
use pds_progetto.Base.{
  refl, List, ℕ, ◌≤◌, ◌≡◌, arith, suc, ◌∷◌, sym, ap, [], ltb, false, ◌==◌, Bool, Bool-cases, some,
  inl, inr, Option, none, ◌⊎◌, true, not, ◌&&◌,
}
use pds_progetto.Comm.ClientSocket.{Connection}
use pds_progetto.Comm.ClientSocket.Threads.{
  ended, running, emplace, end_thread, thread_at, statuses, Thread,
}
use pds_progetto.Comm.Socket.{Asio}
use pds_progetto.Comm.Message.Archive.{Archive}
use pds_progetto.Comm.Message.{Message, MessageType}

pub Option-cases : {A : Type 0} → (o : Option A) → (o ≡ none) ⊎ ((a : A) × (o ≡ some a))
Option-cases none = inl refl
Option-cases (some a) = inr (a, refl)

module _ (A : Asio) (N : Archive) where
  abbrev pub Entries : Type 0
  Entries = List (ℕ × Thread A N)

  unfoldable pub running_count : Entries → ℕ
  running_count [] = 0
  running_count ((id, running c m e) ∷ ts) = suc (running_count ts)
  running_count ((id, ended b) ∷ ts) = running_count ts

  -- The threads are numbered from the first number up to the second.
  unfoldable pub IsNumbered : ℕ → ℕ → Entries → Type 0
  IsNumbered k n [] = k ≡ n
  IsNumbered k n ((id, t) ∷ ts) = (id ≡ k) × IsNumbered (suc k) n ts

  IsNumbered-le : (k n : ℕ) (ts : Entries) → IsNumbered k n ts → k ≤ n
  unfolding IsNumbered
  IsNumbered-le k n [] h = omega (arith, h)
  IsNumbered-le k n ((id, t) ∷ ts) h =
      let rest = IsNumbered-le (suc k) n ts h.1 in omega (arith, rest)

  pub emplace-IsNumbered :
      (k n : ℕ) (t : Thread A N) (ts : Entries)
      → IsNumbered k n ts
      → IsNumbered k (suc n) (emplace A N n t ts)
  unfolding IsNumbered emplace
  emplace-IsNumbered k n t [] h = (sym h, ap suc h)
  emplace-IsNumbered k n t ((id, u) ∷ ts) h =
      let below = IsNumbered-le (suc k) n ts h.1 in
      let not_lt : ltb n id ≡ false = ground (arith, h.0) in
      let not_eq : (n == id) ≡ false = ground (arith, h.0) in
      let rest = emplace-IsNumbered (suc k) n t ts h.1 in rw (not_lt, not_eq) (h.0, rest)

  pub emplace-running_count :
      (k n : ℕ) (c : Connection A N) (m : Message) (e : MessageType) (ts : Entries)
      → IsNumbered k n ts
      → running_count (emplace A N n (running c m e) ts) ≡ suc (running_count ts)
  unfolding IsNumbered emplace running_count
  emplace-running_count k n c m e [] h = refl
  emplace-running_count k n c m e ((id, u) ∷ ts) h =
      let below = IsNumbered-le (suc k) n ts h.1 in
      let not_lt : ltb n id ≡ false = ground (arith, h.0) in
      let not_eq : (n == id) ≡ false = ground (arith, h.0) in
      let rest = emplace-running_count (suc k) n c m e ts h.1 in
      rw (not_lt, not_eq) (more u id _ _ rest)
    where
      more :
          (u : Thread A N) (id : ℕ) (us vs : Entries)
          → running_count us ≡ suc (running_count vs)
          → running_count ((id, u) ∷ us) ≡ suc (running_count ((id, u) ∷ vs))
      more (running c m e) id us vs h = ap suc h
      more (ended b) id us vs h = h

  pub end_thread-IsNumbered :
      (id : ℕ) (b : Bool) (k n : ℕ) (ts : Entries)
      → IsNumbered k n ts
      → IsNumbered k n (end_thread A N id b ts)
  unfolding IsNumbered end_thread
  end_thread-IsNumbered id b k n [] h = h
  end_thread-IsNumbered id b k n ((j, u) ∷ ts) h =
      let rest = end_thread-IsNumbered id b (suc k) n ts h.1 in
      elim (Bool-cases (id == j)) [ inl e ↦ rw (e) (h.0, h.1) | inr e ↦ rw (e) (h.0, rest) ]

  -- One thread less runs when a running one has ended.
  pub end_thread-running_count :
      (id : ℕ) (b : Bool) (c : Connection A N) (m : Message) (e : MessageType) (ts : Entries)
      → thread_at A N id ts ≡ some (running c m e)
      → suc (running_count (end_thread A N id b ts)) ≡ running_count ts
  unfolding end_thread thread_at running_count
  end_thread-running_count id b c m e [] h = absurd (ground arith)
  end_thread-running_count id b c m e ((j, running d m' e') ∷ ts) h = elim (Bool-cases (id == j)) [
    | inl here ↦ rw (here) refl
    | inr there ↦
        (let rest = end_thread-running_count id b c m e ts (rw there at h) in
          rw (there) (ap suc rest))
  ]
  end_thread-running_count id b c m e ((j, ended b') ∷ ts) h = elim (Bool-cases (id == j)) [
    | inl here ↦ (let never = rw here at h in absurd (ground arith))
    | inr there ↦
        (let rest = end_thread-running_count id b c m e ts (rw there at h) in rw (there) rest)
  ]

  -- The futures have a value only if no thread runs.
  pub statuses-running_count :
      (late : ℕ → Bool) (ts : Entries) (b : Bool)
      → statuses A N late ts ≡ some b
      → running_count ts ≡ 0
  unfolding statuses running_count
  statuses-running_count late [] b h = refl
  statuses-running_count late ((id, running c m e) ∷ ts) b h = absurd (ground arith)
  statuses-running_count late ((id, ended d) ∷ ts) b h =
      elim (Option-cases (statuses A N late ts)) [
        | inl none_ ↦ (let never = rw none_ at h in absurd (ground arith))
        | inr (c, some_) ↦ statuses-running_count late ts c some_
      ]

  pub ended-statuses :
      (late : ℕ → Bool) (ts : Entries)
      → running_count ts ≡ 0
      → (b : Bool) × (statuses A N late ts ≡ some b)
  unfolding statuses running_count
  ended-statuses late [] h = (true, refl)
  ended-statuses late ((id, running c m e) ∷ ts) h = absurd (omega (arith, h))
  ended-statuses late ((id, ended d) ∷ ts) h =
      let (b, rest) = ended-statuses late ts h in (not (late id) && d && b, rw (rest) refl)
