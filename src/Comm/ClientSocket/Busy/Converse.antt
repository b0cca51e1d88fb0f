-- ===== src/Comm/ClientSocket/Busy/Converse.antt =====
-- From a retry back to the answer of the server, in an exchange of comm/Client_socket_API.cpp.
use pds_progetto.Base.{
  refl, ◌≡◌, inl, inr, true, false, some, Bool-cases, arith, ap, ◌∙◌, sym, Option-cases, Bool,
  subst, if◌then◌else◌,
}
use pds_progetto.Base.Int.{pos, ==ℤ_iff}
use pds_progetto.Cpp.Result.{ok, Result, throws}
use pds_progetto.Cpp.Effect.{
  Effect, Ends, pure-Ends, bind-Ends, modify-Ends, choice-Ends, reads-bind, Outcome, weaken-Ends,
}
use pds_progetto.Comm.ClientSocket.{
  Connection, Exchanged, exchange, retries, gives_up, goes_on, reconnected, not_received, on_socket,
  parting, is_busy, is_connection_error,
}
use pds_progetto.Comm.CommError.{CommError}
use pds_progetto.Comm.Socket.{Asio, open_conn, send_message, receive, get_last_error}
use pds_progetto.Comm.Message.Archive.{Archive}
use pds_progetto.Comm.Message.{Message, MessageType, code_of, same_code, msg_retry_later}
use pds_progetto.Comm.ClientSocket.Busy.{AsksToRetry, IsConnectionError, lost-false}

module _ (A : Asio) (N : Archive) where
  module _ (m : Message) (expected : MessageType) where
    -- The equation of an effect that returned.
    traced :
        {B : Type 0} (n : Effect (Connection A N) B) {s : Connection A N}
        → Ends (λ b t. n s ≡ (ok b, t)) (λ _. Unit {0}) n s
    traced {B = B} n {s = s} = record { holds = outcome (n s).0 (n s).1 refl }
      where
        outcome :
            (r : Result B) (t : Connection A N)
            → n s ≡ (r, t)
            → Outcome (λ b t. n s ≡ (ok b, t)) (λ _. Unit {0}) (r, t)
        outcome (ok b) t e = e
        outcome (throws x) t e = tt

    abbrev Retries : Exchanged A N → Type 0
    Retries done = done ≡ retries

    gives_up-never : ¬ Retries gives_up
    gives_up-never = ground arith

    goes_on-never : (b : Bool) → ¬ Retries (goes_on b)
    goes_on-never b = ground arith

    -- What a retry says of the state in which the message was not received.
    record Refused (t u : Connection A N) : Type 0 where
      same : t ≡ u
      fine :
          (e : CommError) → get_last_error A N t.socket ≡ some e → ¬ IsConnectionError e.original_ec
      answer : Message
      answered : t.socket.message ≡ some answer
      busy : code_of answer.code ≡ pos 101

    reconnected-never :
        (m' : Message) (t : Connection A N)
        → Ends
            (λ done u. Retries done → Refused t u)
            (λ _. Unit {0})
            (reconnected A N m' expected)
            t
    unfolding reconnected
    reconnected-never m' t = bind-Ends (traced (on_socket A N (open_conn A N true))) λ opened s1 _.
        choice-Ends opened _ _
          (λ _. bind-Ends (traced (on_socket A N (send_message A N m'))) λ sent s2 _.
            choice-Ends sent _ _
              (λ _. bind-Ends (traced (on_socket A N (receive A N expected))) λ received s3 _.
                pure-Ends (goes_on received) λ e. absurd (goes_on-never received e))
              (λ _. pure-Ends gives_up λ e. absurd (gives_up-never e)))
          (λ _. pure-Ends gives_up λ e. absurd (gives_up-never e))

    busy_code :
        (code : MessageType) → same_code code msg_retry_later ≡ true → code_of code ≡ pos 101
    unfolding same_code code_of
    busy_code code matches = (==ℤ_iff (code_of code) (pos 101)).0 matches

    refused :
        (t : Connection A N)
        → is_connection_error A N t ≡ false
        → Retries (if is_busy A N t then retries else gives_up)
        → Refused t t
    refused t fine asks = elim (Option-cases (t.socket.message)) [
      | inl missing ↦ absurd (gives_up-never (rw missing at asks))
      | inr (answer, there) ↦ record {
        same = refl;
        fine = λ e found. lost-false A N e.original_ec (rw (found, is_connection_error) at fine);
        answer = answer;
        answered = there;
        busy = elim (Bool-cases (same_code answer.code msg_retry_later)) [
          | inl matches ↦ busy_code answer.code matches
          | inr other ↦ absurd (gives_up-never (rw (there, other) at asks))
        ];
      }
    ]

    not_received-Refused :
        (m' : Message) (t : Connection A N)
        → Ends
            (λ done u. Retries done → Refused t u)
            (λ _. Unit {0})
            (not_received A N m' expected)
            t
    unfolding not_received
    not_received-Refused m' t = reads-bind _ _ (is_connection_error A N t) refl (
        choice-Ends (is_connection_error A N t) _ _ (λ _. reconnected-never m' t)
          λ fine. reads-bind _ _ (is_busy A N t) refl (pure-Ends _ (refused t fine)))

    exchange-Judged :
        (s : Connection A N)
        → Ends
            (λ done t. Retries done → AsksToRetry A N m expected s t)
            (λ _. Unit {0})
            (exchange A N m expected)
            s
    unfolding exchange
    exchange-Judged s = bind-Ends (traced (on_socket A N (open_conn A N false))) λ opened s1 e1.
        choice-Ends opened _ _
          (λ yes1.
            reads-bind _ _ (record m { cookie = s1.cookie }) refl
              (bind-Ends (modify-Ends {P = λ _ u. parting A N m s1 ≡ u} (parting A N m) refl)
                λ _ s2 e2.
                  bind-Ends
                    (traced (on_socket A N (send_message A N (record m { cookie = s1.cookie }))))
                    λ sent s3 e3.
                      choice-Ends sent _ _
                        (λ yes3.
                          bind-Ends (traced (on_socket A N (receive A N expected)))
                            λ received s4 e4.
                              choice-Ends received _ _
                                (λ _. pure-Ends (goes_on true) λ e. absurd (goes_on-never true e))
                                (λ other.
                                  weaken-Ends
                                    (not_received-Refused (record m { cookie = s1.cookie }) s4)
                                    λ done t r asks.
                                      let h = r asks in
                                      record {
                                        opened = s1;
                                        opens = e1 ∙ ap (λ b. (ok b, s1)) yes1;
                                        sent = s3;
                                        sends =
                                            ap
                                              (on_socket A N (
                                                send_message A N (record m { cookie = s1.cookie })))
                                              e2
                                            ∙ e3
                                            ∙ ap (λ b. (ok b, s3)) yes3;
                                        refuses =
                                            e4
                                            ∙ ap (λ b. (ok b, s4)) other
                                            ∙ ap (λ u. (ok false, u)) h.same;
                                        connected = λ e found.
                                            h.fine e (
                                              ap (λ u. get_last_error A N u.socket) h.same ∙ found);
                                        answer = h.answer;
                                        answered =
                                            ap (λ u. u.socket.message) (sym h.same) ∙ h.answered;
                                        busy = h.busy;
                                      }))
                        (λ _. pure-Ends gives_up λ e. absurd (gives_up-never e))))
          (λ _. pure-Ends gives_up λ e. absurd (gives_up-never e))

    pub retries-exchange :
        {s t : Connection A N}
        → exchange A N m expected s ≡ (ok retries, t)
        → AsksToRetry A N m expected s t
    retries-exchange {s = s} {t = t} e =
        subst (Outcome (λ done u. Retries done → AsksToRetry A N m expected s u) (λ _. Unit {0})) e
          (exchange-Judged s).holds refl
