-- ===== src/Comm/Socket.antt =====
-- comm/Socket_API.h and comm/Socket_API.cpp, over the calls of Boost.Asio. The text that `what()`
-- adds to an error, the delays and the log are left out.
pub mod Received
pub mod Attempts
use pds_progetto.Cpp.Effect.{◌>>=◌, ◌>>◌, pure, modify, reads, Effect}
use pds_progetto.Comm.CommError.{
  ErrorCode, CommError, comm_error, ce_failure, ce_unexpected_type, ce_generic,
}
use pds_progetto.Base.{
  Bool, ℕ, ◌&&◌, Option, if◌then◌else◌, some, none, suc, true, not, ◌||◌, false, zero,
}
use pds_progetto.Comm.Message.Archive.{Archive, build_content, wire}
use pds_progetto.Comm.Message.{
  Bytes, MessageType, Message, same_code, msg_undefined, new_message, msg_error,
}
use pds_progetto.Cpp.Result.{ok, throws, Result}
use pds_progetto.Comm.Message.Header.{build_header}

-- What an operation on a socket gives: an error code, or the bytes that it read.
pub data Performed (B : Type 0) : Type 0 where
  failed_with : ErrorCode → Performed B
  performed : B → Performed B

-- `boost::asio::connect` in its thread.
pub data Connecting : Type 0 where
  connected refused late : Connecting

pub record Asio : Type 1 where
  pub State : Type 0
  -- `socket_` is not null, and `is_open`.
  pub has_socket : State → Bool
  pub is_open : State → Bool
  pub stopped : State → Bool
  pub connect : State → Connecting × State
  -- `write`, and `read` of as many bytes as the buffer holds.
  pub write : Bytes → Effect State (Performed (Unit {0}))
  pub read : ℕ → Effect State (Performed Bytes)
  -- The calls with an error code, which throw nothing.
  pub shutdown_both : State → State
  pub release_and_close : State → Option ErrorCode × State
  -- `socket_ = nullptr`.
  pub reset : State → State

module _ (A : Asio) (N : Archive) where
  pub record Socket : Type 0 where
    pub net : A.State
    pub n_retry : ℕ
    pub keep_alive : Bool
    pub message : Option Message
    pub last_error : Option CommError

  abbrev pub failing : CommError → Socket → Socket
  failing e s = record s { last_error = some e }

  -- `socket_ && socket_->is_open()`.
  abbrev pub usable : Socket → Bool
  usable s = A.has_socket s.net && A.is_open s.net

  -- An attempt of `call_` after the operation: a result, an exception, or another attempt.
  unfoldable pub attempted :
      {B : Type 0}
      → (Socket → Option B × Socket)
      → Socket
      → Result (Performed B) × A.State
      → Option B × Socket
  attempted again s (throws e, net) = (
    none,
    failing (comm_error ce_generic "Socket_API::call_" "Exception caught") (record s { net = net }),
  )
  attempted again s (ok (performed b), net) = (some b, record s { net = net })
  attempted again s (ok (failed_with ec), net) = again (
      failing
        (record (comm_error ce_failure "Socket_API::call_" "Operation failure on socket") {
          original_ec = ec;
        })
        (record s { net = net }))

  -- The loop of `call_` with so many attempts left.
  unfoldable pub attempts :
      {B : Type 0} → Effect A.State (Performed B) → ℕ → Socket → Option B × Socket
  unfolding attempted
  attempts perform zero s = (none, s)
  attempts perform (suc left) s =
      let again = attempts perform left in
      if usable s
      then attempted again s (perform s.net)
      else (none, failing (comm_error ce_failure "Socket_API::call_" "Invalid socket") s)

  -- `call_`: what the operation gave, if it succeeded.
  unfoldable pub call : {B : Type 0} → Effect A.State (Performed B) → Effect Socket (Option B)
  unfolding attempts
  call perform s = let (r, t) = attempts perform (suc s.n_retry) s in (ok r, t)

  unfoldable pub receive_header : Effect Socket (Option Bytes)
  unfolding call
  receive_header = do
    r ← call (A.read 12)
    elim r [
      | some bytes ↦ pure (some bytes)
      | none ↦ do
        modify (
            failing
              (comm_error ce_failure "Socket_API::receive_header_" "Unable to read message header"))
        pure none
    ]

  unfoldable pub receive_content : ℕ → Effect Socket (Option Bytes)
  unfolding call
  receive_content length = do
    r ← call (A.read length)
    elim r [
      | some bytes ↦ pure (some bytes)
      | none ↦ do
        modify (
            failing (
              comm_error ce_failure "Socket_API::receive_content_"
                "Unable to read message content"))
        pure none
    ]

  -- `expectedMessage` does not forbid the code.
  unfoldable pub is_expected : MessageType → MessageType → Bool
  is_expected expected code =
      same_code expected msg_undefined || same_code code expected || same_code code msg_error

  -- The end of `receive`, with the content.
  unfoldable pub built : Bytes → Effect Socket Bool
  unfolding build_content
  built content = elim (build_content N content) [
    | throws e ↦ do
      modify
          (failing (comm_error ce_failure "Socket_API::receive" "Cannot build the message content"))
      pure false
    | ok m ↦ do modify (λ s. record s { message = some m; last_error = m.comm_error }); pure true
  ]

  -- `receive` after `build_header`.
  unfoldable pub receive_rest : MessageType → MessageType × ℕ → Effect Socket Bool
  unfolding receive_content is_expected built
  receive_rest expected (code, length) = do
    modify (λ s. record s { message = some (record (new_message msg_error) { code = code }) })
    modify (
        if is_expected expected code
        then (λ s. s)
        else failing (
            comm_error ce_unexpected_type "Socket_API::receive_header_"
              "Expected another message code"))
    content ← receive_content length
    elim content [
      | none ↦ pure false
      | some bytes ↦ if is_expected expected code then built bytes else pure false
    ]

  unfoldable pub receive : MessageType → Effect Socket Bool
  unfolding receive_header receive_rest
  receive expected = do
    modify (λ s. record s { message = some (new_message msg_error) })
    header ← receive_header
    elim header [
      | none ↦ pure false
      | some bytes ↦ elim (build_header bytes) [
        | throws e ↦ do
          modify (
              failing
                (comm_error ce_failure "Socket_API::receive" "Cannot build the message header"))
          pure false
        | ok h ↦ receive_rest expected h
      ]
    ]

  unfoldable pub send_message : Message → Effect Socket Bool
  unfolding call wire
  send_message msg = do
    keep_alive ← reads (λ s. ok (s.keep_alive))
    r ← call (A.write (wire N (record msg { keep_alive = keep_alive })))
    elim r [
      | some _ ↦ pure true
      | none ↦ do
        modify (failing (comm_error ce_failure "Socket_API::send" "Unable to write msg"))
        pure false
    ]

  unfoldable pub shutdown : Effect Socket Bool
  shutdown = do
    modify (λ s. if usable s then record s { net = A.shutdown_both s.net } else s)
    pure true

  abbrev pub noted : Option ErrorCode → Socket → Socket
  noted none s = s
  noted (some ec) s =
      failing (record (comm_error ce_failure "Socket_API::close_conn" "") { original_ec = ec }) s

  -- The part of `close_conn` after the shutdown.
  unfoldable pub released : Socket → Socket
  released s =
      if A.is_open s.net
      then (let (ec, net) = A.release_and_close s.net in noted ec (record s { net = A.reset net }))
      else record s { net = A.reset s.net }

  unfoldable pub close_conn : Bool → Effect Socket Bool
  unfolding shutdown released
  close_conn force s =
      if not (A.has_socket s.net) || (A.is_open s.net && s.keep_alive && not force)
      then (ok true, s)
      else (do done ← shutdown; modify released; pure true) s

  unfoldable pub open_conn : Bool → Effect Socket Bool
  unfolding close_conn
  open_conn force s =
      if usable s && s.keep_alive && not force
      then (ok true, s)
      else (do
        closed ← close_conn false
        stopped ← reads (λ s. ok (A.stopped s.net))
        if closed && not stopped then connecting else pure false)
          s
    where
      connecting : Effect Socket Bool
      connecting s =
          let (r, net) = A.connect s.net in
          elim r [
            | connected ↦ (ok true, record s { net = net })
            | refused ↦ (
              ok false,
              failing (comm_error ce_failure "Socket_API::open_conn" "") (record s { net = net }),
            )
            | late ↦ (
              ok false,
              failing (comm_error ce_failure "Socket_API::open_conn" "Unable to connect, timeout")
                  (record s { net = net }),
            )
          ]

  -- `get_last_error`, where there is a message.
  unfoldable pub get_last_error : Socket → Option CommError
  get_last_error s = elim (s.last_error) [
    | some e ↦ some e
    | none ↦ elim (s.message) [ none ↦ none | some m ↦ m.comm_error ]
  ]
