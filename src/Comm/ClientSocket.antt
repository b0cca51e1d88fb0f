-- ===== src/Comm/ClientSocket.antt =====
-- comm/Client_socket_API.h and comm/Client_socket_API.cpp: one exchange of messages on a socket. The
-- delay before a retry and the log are left out. `send_and_receive` asks again for as long as the
-- server is busy, so it runs on fuel.
pub mod Busy
pub mod Retries
pub mod Kept
pub mod Cookies
pub mod Threads
use pds_progetto.Cpp.Dialog.{Dialog, ends, spent, and_then}
use pds_progetto.Cpp.Dialog
use pds_progetto.Cpp.Effect.{◌>>=◌, ◌>>◌, Effect, on, pure, modify, reads}
use pds_progetto.Comm.Socket.{
  Asio, Socket, open_conn, close_conn, send_message, receive, get_last_error,
}
use pds_progetto.Comm.Message.{
  Message, MessageType, same_code, msg_end, msg_retry_later, cookie_keep_the_same,
}
use pds_progetto.Comm.CommError.{ErrorCode, not_connected, timed_out, shut_down, fault}
use pds_progetto.Comm.Message.Archive.{Archive}
use pds_progetto.Base.{
  ℕ, Text, Bool, true, if◌then◌else◌, false, Option, same_text, some, suc, none, ◌&&◌, zero,
}
use pds_progetto.Cpp.Result.{ok}

module _ (A : Asio) (N : Archive) where
  -- The socket, `cookie_` and `prev_keep_alive_`.
  pub record Connection : Type 0 where
    pub socket : Socket A N
    pub cookie : Text
    pub prev_keep_alive : Bool

  abbrev pub on_socket : {B : Type 0} → Effect (Socket A N) B → Effect Connection B
  on_socket = on (λ s. s.socket) (λ socket s. record s { socket = socket })

  -- `keep_alive = value`.
  abbrev pub keeping : Bool → Connection → Connection
  keeping value s = record s { socket = record (s.socket) { keep_alive = value } }

  abbrev pub lost : ErrorCode → Bool
  lost not_connected = true
  lost timed_out = true
  lost shut_down = true
  lost fault = true
  lost _ = false

  -- `is_connection_error_`, where an error is known.
  abbrev pub is_connection_error : Connection → Bool
  is_connection_error s = elim (get_last_error A N s.socket) [
    | none ↦ false
    | some e ↦ lost e.original_ec
  ]

  -- `get_message() && get_message()->code == MSG_RETRY_LATER`.
  abbrev pub is_busy : Connection → Bool
  is_busy s = elim (s.socket.message) [ none ↦ false | some m ↦ same_code m.code msg_retry_later ]

  -- What an exchange comes to: `return false`, the value of `ret_val`, or a retry.
  pub data Exchanged : Type 0 where
    gives_up : Exchanged
    goes_on : Bool → Exchanged
    retries : Exchanged

  -- The answer did not come, but the connection can be opened again.
  unfoldable pub reconnected : Message → MessageType → Effect Connection Exchanged
  unfolding open_conn send_message receive
  reconnected m expected = do
    opened ← on_socket (open_conn A N true)
    elim opened [
      | false ↦ pure gives_up
      | true ↦ do
        sent ← on_socket (send_message A N m)
        elim sent [
          | false ↦ pure gives_up
          | true ↦ do received ← on_socket (receive A N expected); pure (goes_on received)
        ]
    ]

  unfoldable pub not_received : Message → MessageType → Effect Connection Exchanged
  unfolding reconnected get_last_error same_code
  not_received m expected = do
    error ← reads (λ s. ok (is_connection_error s))
    elim error [
      | true ↦ reconnected m expected
      | false ↦ do busy ← reads (λ s. ok (is_busy s)); pure (if busy then retries else gives_up)
    ]

  -- `keep_alive` before the message of the end.
  abbrev pub parting : Message → Connection → Connection
  parting m s =
      if same_code m.code msg_end
      then keeping false (record s { prev_keep_alive = s.socket.keep_alive })
      else s

  unfoldable pub exchange : Message → MessageType → Effect Connection Exchanged
  unfolding open_conn same_code send_message receive not_received
  exchange m expected = do
    opened ← on_socket (open_conn A N false)
    elim opened [
      | false ↦ pure gives_up
      | true ↦ do
        m' ← reads (λ s. ok (record m { cookie = s.cookie }))
        modify (parting m)
        sent ← on_socket (send_message A N m')
        elim sent [
          | false ↦ pure gives_up
          | true ↦ do
            received ← on_socket (receive A N expected)
            elim received [ true ↦ pure (goes_on true) | false ↦ not_received m' expected ]
        ]
    ]

  -- `cookie_` after a message has come.
  abbrev pub cookie_after : Option Message → Text → Text
  cookie_after none cookie = cookie
  cookie_after (some m) cookie =
      if same_text m.cookie cookie_keep_the_same then cookie else m.cookie

  abbrev pub store_cookie : Bool → Connection → Connection
  store_cookie false s = s
  store_cookie true s = record s { cookie = cookie_after s.socket.message s.cookie }

  abbrev pub kept_again : Message → Connection → Connection
  kept_again m s = if same_code m.code msg_end then keeping s.prev_keep_alive s else s

  -- The end of `send_and_receive`, with `ret_val`.
  unfoldable pub finish : Message → Bool → Effect Connection Bool
  unfolding same_code close_conn
  finish m ret_val = do
    modify (store_cookie ret_val)
    modify (kept_again m)
    closed ← on_socket (close_conn A N false)
    pure (closed && ret_val)

  -- The rest of `send_and_receive`, with its call of itself.
  unfoldable pub answered : Dialog Connection Bool → Message → Exchanged → Dialog Connection Bool
  unfolding finish Dialog.pure
  answered again m gives_up = Dialog.pure false
  answered again m (goes_on ret_val) = ends (finish m ret_val)
  answered again m retries = and_then again λ ret_val. ends (finish m ret_val)

  unfoldable pub send_and_receive : ℕ → Message → MessageType → Dialog Connection Bool
  unfolding exchange answered
  send_and_receive zero m expected = spent
  send_and_receive (suc fuel) m expected =
      let again = send_and_receive fuel m expected in
      and_then (ends (exchange m expected)) λ done. answered again m done
