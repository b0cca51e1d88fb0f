-- ===== src/Comm/ClientSocket/Busy.antt =====
-- The answer of a busy server in one exchange of comm/Client_socket_API.cpp.
pub mod Converse
use pds_progetto.Base.{
  refl, ◌≡◌, ◌⊎◌, inl, inr, true, false, some, Bool-cases, arith, ap, ◌∙◌, sym, Option-cases, Bool,
  subst, if◌then◌else◌,
}
use pds_progetto.Base.Int.{pos, ==ℤ_iff}
use pds_progetto.Cpp.Result.{ok, Result, throws}
use pds_progetto.Cpp.Effect.{
  Effect, Ends, pure-Ends, bind-Ends, modify-Ends, choice-Ends, reads-bind, Outcome, bind-returned,
  modify, ◌>>=◌, weaken-Ends, Ends-returns,
}
use pds_progetto.Comm.ClientSocket.{
  Connection, Exchanged, exchange, retries, gives_up, goes_on, reconnected, not_received, on_socket,
  parting, is_busy, is_connection_error, lost, timed_out,
}
use pds_progetto.Comm.CommError.{
  ErrorCode, not_connected, try_again, shut_down, fault, other_error, CommError,
}
use pds_progetto.Comm.Socket.{Asio, open_conn, send_message, receive, get_last_error}
use pds_progetto.Comm.Message.Archive.{Archive}
use pds_progetto.Comm.Message.{Message, MessageType, code_of, same_code, msg_retry_later}

-- The errors of `is_connection_error_`.
abbrev pub IsConnectionError : ErrorCode → Type 0
IsConnectionError c = (c ≡ not_connected) ⊎ (c ≡ timed_out) ⊎ (c ≡ shut_down) ⊎ (c ≡ fault)

module _ (A : Asio) (N : Archive) where
  lost-false : (c : ErrorCode) → lost A N c ≡ false → ¬ IsConnectionError c
  lost-false c h e = ground arith

  not-lost : (c : ErrorCode) → ¬ IsConnectionError c → lost A N c ≡ false
  not-lost try_again h = refl
  not-lost not_connected h = absurd (h (inl refl))
  not-lost timed_out h = absurd (h (inr (inl refl)))
  not-lost shut_down h = absurd (h (inr (inr (inl refl))))
  not-lost fault h = absurd (h (inr (inr (inr refl))))
  not-lost other_error h = refl

  module _ (m : Message) (expected : MessageType) where
    -- The message is sent on an open connection; what comes back is not the expected message, but
    -- the code 101, and the last error, if there is one, is not one of the connection.
    pub record AsksToRetry (s t : Connection A N) : Type 0 where
      pub opened : Connection A N
      pub opens : on_socket A N (open_conn A N false) s ≡ (ok true, opened)
      pub sent : Connection A N
      pub sends :
          on_socket A N
            (send_message A N (record m { cookie = opened.cookie }))
            (parting A N m opened)
          ≡ (ok true, sent)
      pub refuses : on_socket A N (receive A N expected) sent ≡ (ok false, t)
      pub connected :
          (e : CommError) → get_last_error A N t.socket ≡ some e → ¬ IsConnectionError e.original_ec
      pub answer : Message
      pub answered : t.socket.message ≡ some answer
      pub busy : code_of answer.code ≡ pos 101

    no_connection_error :
        (t : Connection A N)
        → ((e : CommError)
            → get_last_error A N t.socket ≡ some e
            → ¬ IsConnectionError e.original_ec)
        → is_connection_error A N t ≡ false
    no_connection_error t h = elim (Option-cases (get_last_error A N t.socket)) [
      | inl missing ↦ rw (missing, is_connection_error) refl
      | inr (e, found) ↦ rw (found, is_connection_error) (not-lost e.original_ec (h e found))
    ]

    code_busy :
        (code : MessageType) → code_of code ≡ pos 101 → same_code code msg_retry_later ≡ true
    unfolding same_code
    code_busy code h = rw (h) refl

    -- An effect that is known to return, and what follows it.
    known-bind :
        {B C : Type 0} {P : C → Connection A N → Type 0} {X : Connection A N → Type 0}
        (n : Effect (Connection A N) B) (f : B → Effect (Connection A N) C) (b : B)
        {s t : Connection A N}
        → n s ≡ (ok b, t)
        → Ends P X (f b) t
        → Ends P X (n >>= f) s
    known-bind {P = P} {X = X} n f b e h = record {
      holds = subst (Outcome P X) (sym (bind-returned n f b e)) h.holds;
    }

    abbrev RetriesAt : Connection A N → Exchanged A N → Connection A N → Type 0
    RetriesAt t done u = (done ≡ retries) × (t ≡ u)

    not_received-RetriesAt :
        (m' : Message) (t : Connection A N) (answer : Message)
        → is_connection_error A N t ≡ false
        → t.socket.message ≡ some answer
        → same_code answer.code msg_retry_later ≡ true
        → Ends (RetriesAt t) (λ _. ⊥) (not_received A N m' expected) t
    unfolding not_received
    not_received-RetriesAt m' t answer fine answered busy =
        reads-bind _ _ false (ap ok fine)
          (reads-bind _ _ true (rw (answered) (ap ok busy)) (pure-Ends retries (refl, refl)))

    exchange-RetriesAt :
        {s t : Connection A N}
        → AsksToRetry s t
        → Ends (RetriesAt t) (λ _. ⊥) (exchange A N m expected) s
    unfolding exchange modify
    exchange-RetriesAt {t = t} b = known-bind _ _ true b.opens (
        reads-bind _ _ (record m { cookie = b.opened.cookie }) refl
          (known-bind (modify (parting A N m)) _ tt refl (
            known-bind _ _ true b.sends (
              known-bind _ _ false b.refuses (
                not_received-RetriesAt (record m { cookie = b.opened.cookie }) t b.answer
                  (no_connection_error t b.connected) b.answered
                  (code_busy b.answer.code b.busy))))))

    pub exchange-retries :
        {s t : Connection A N} → AsksToRetry s t → exchange A N m expected s ≡ (ok retries, t)
    exchange-retries b =
        let (done, u, e, (same, at_t)) = Ends-returns (exchange-RetriesAt b) in
        e ∙ ap (λ d. (ok d, u)) same ∙ ap (λ v. (ok retries, v)) (sym at_t)
