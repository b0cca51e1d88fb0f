-- ===== src/Comm/ClientSocket/Kept.antt =====
-- An exchange of messages of comm/Client_socket_API.cpp leaves `cookie_` as it is.
use pds_progetto.Base.{refl, ◌∙◌, Text, ◌≡◌, true, Bool-cases, inl, inr, false}
use pds_progetto.Comm.Socket.{receive, open_conn, send_message, Asio, Socket}
use pds_progetto.Comm.ClientSocket.{
  Connection, on_socket, gives_up, goes_on, exchange, reconnected, not_received,
  is_connection_error, parting, is_busy,
}
use pds_progetto.Cpp.Effect.{
  Effect, Ends, bind-Ends, pure-Ends, modify-Ends, on-Ends, reads-bind, all-Outcome, choice-Ends,
}
use pds_progetto.Comm.Message.Archive.{Archive}
use pds_progetto.Comm.Message.{Message, MessageType, same_code, msg_end}

module _ (A : Asio) (N : Archive) where
  -- The cookie stays, in the end and in an exception.
  abbrev pub Keeps : {B : Type 0} → Text → Effect (Connection A N) B → Connection A N → Type 0
  Keeps cookie m s = Ends (λ _ s'. s'.cookie ≡ cookie) (λ s'. s'.cookie ≡ cookie) m s

  on_socket-Keeps :
      {B : Type 0} (m : Effect (Socket A N) B) (cookie : Text) (s : Connection A N)
      → s.cookie ≡ cookie
      → Keeps cookie (on_socket A N m) s
  on_socket-Keeps m cookie s h =
      on-Ends (λ s. s.socket) (λ socket s. record s { socket = socket }) m
        (all-Outcome (λ u. s.cookie ≡ cookie) (m s.socket) (λ _. h))

  reconnected-Keeps :
      (m : Message) (expected : MessageType) (cookie : Text) (s : Connection A N)
      → s.cookie ≡ cookie
      → Keeps cookie (reconnected A N m expected) s
  unfolding reconnected
  reconnected-Keeps m expected cookie s h =
      bind-Ends (on_socket-Keeps (open_conn A N true) cookie s h) λ opened s1 h1.
        choice-Ends opened _ _
          (λ _. bind-Ends (on_socket-Keeps (send_message A N m) cookie s1 h1) λ sent s2 h2.
            choice-Ends sent _ _
              (λ _.
                bind-Ends (on_socket-Keeps (receive A N expected) cookie s2 h2)
                  λ received s3 h3. pure-Ends (goes_on received) h3)
              (λ _. pure-Ends gives_up h2))
          (λ _. pure-Ends gives_up h1)

  not_received-Keeps :
      (m : Message) (expected : MessageType) (cookie : Text) (s : Connection A N)
      → s.cookie ≡ cookie
      → Keeps cookie (not_received A N m expected) s
  unfolding not_received
  not_received-Keeps m expected cookie s h = reads-bind _ _ (is_connection_error A N s) refl (
      choice-Ends (is_connection_error A N s) _ _ (λ _. reconnected-Keeps m expected cookie s h)
        (λ _. reads-bind _ _ (is_busy A N s) refl (pure-Ends _ h)))

  pub exchange-Keeps :
      (m : Message) (expected : MessageType) (cookie : Text) (s : Connection A N)
      → s.cookie ≡ cookie
      → Keeps cookie (exchange A N m expected) s
  unfolding exchange
  exchange-Keeps m expected cookie s h =
      bind-Ends (on_socket-Keeps (open_conn A N false) cookie s h) λ opened s1 h1.
        choice-Ends opened _ _
          (λ _.
            reads-bind _ _ (record m { cookie = s1.cookie }) refl
              (bind-Ends (modify-Ends (parting A N m) (parting-cookie m s1 ∙ h1)) λ _ s2 h2.
                bind-Ends
                  (on_socket-Keeps (send_message A N (record m { cookie = s1.cookie })) cookie s2
                    h2)
                  λ sent s3 h3.
                    choice-Ends sent _ _
                      (λ _.
                        bind-Ends (on_socket-Keeps (receive A N expected) cookie s3 h3)
                          λ received s4 h4.
                            choice-Ends received _ _ (λ _. pure-Ends (goes_on true) h4)
                              (λ _.
                                not_received-Keeps (record m { cookie = s1.cookie }) expected cookie
                                  s4 h4))
                      (λ _. pure-Ends gives_up h3)))
          (λ _. pure-Ends gives_up h1)
    where
      parting-cookie : (m : Message) (s : Connection A N) → (parting A N m s).cookie ≡ s.cookie
      parting-cookie m s = elim (Bool-cases (same_code m.code msg_end)) [
        | inl e ↦ rw (e) refl
        | inr e ↦ rw (e) refl
      ]
