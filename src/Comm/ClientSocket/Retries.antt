-- ===== src/Comm/ClientSocket/Retries.antt =====
-- When `send_and_receive` of comm/Client_socket_API.cpp ends.
use pds_progetto.Base.{refl, ℕ, ◌≡◌, Option, none, suc, Bool, zero, ◌∙◌, ◌↔◌, ap, some, arith, sym}
use pds_progetto.Cpp.Dialog.{ends, pure, and_then-ok, and_then-none, and_then-throws, none-and_then}
use pds_progetto.Comm.ClientSocket.{
  Connection, Exchanged, exchange, retries, gives_up, goes_on, answered, send_and_receive,
}
use pds_progetto.Comm.Socket.{Asio}
use pds_progetto.Comm.Message.Archive.{Archive}
use pds_progetto.Comm.Message.{Message, MessageType}
use pds_progetto.Cpp.Result.{ok, Result, throws, Exception}
use pds_progetto.Comm.ClientSocket.Busy.{AsksToRetry, exchange-retries}
use pds_progetto.Comm.ClientSocket.Busy.Converse.{retries-exchange}

module _ (A : Asio) (N : Archive) (m : Message) (expected : MessageType) where
  -- So many exchanges, one after the other, in which the server asks to retry.
  pub data IsBusyFor : ℕ → Connection A N → Type 0 where
    now : {s : Connection A N} → IsBusyFor 0 s
    still :
        {k : ℕ} {s t : Connection A N}
        → AsksToRetry A N m expected s t
        → IsBusyFor k t
        → IsBusyFor (suc k) s

  abbrev sending : ℕ → Connection A N → Option (Result Bool × Connection A N)
  sending fuel s = send_and_receive A N fuel m expected s

  sending-suc :
      (fuel : ℕ) (done : Exchanged A N) (s t : Connection A N)
      → exchange A N m expected s ≡ (ok done, t)
      → sending (suc fuel) s ≡ answered A N (sending fuel) m done t
  unfolding send_and_receive ends
  sending-suc fuel done s t e = and_then-ok (ends (exchange A N m expected)) _ s done t (ap some e)

  sending-throws :
      (fuel : ℕ) (why : Exception) (s t : Connection A N)
      → exchange A N m expected s ≡ (throws why, t)
      → sending (suc fuel) s ≡ some (throws why, t)
  unfolding send_and_receive ends
  sending-throws fuel why s t e =
      and_then-throws (ends (exchange A N m expected)) _ s why t (ap some e)

  IsBusyFor-none : (fuel : ℕ) (s : Connection A N) → IsBusyFor fuel s → sending fuel s ≡ none
  unfolding answered send_and_receive
  IsBusyFor-none zero s h = refl
  IsBusyFor-none (suc fuel) s (still {t = t} e h) =
      sending-suc fuel retries s t (exchange-retries A N m expected e)
      ∙ and_then-none (sending fuel) _ t (IsBusyFor-none fuel t h)

  -- An exchange after which the fuel runs out.
  out_of_fuel :
      (fuel : ℕ) (done : Exchanged A N) (t : Connection A N)
      → answered A N (sending fuel) m done t ≡ none
      → (done ≡ retries) × (sending fuel t ≡ none)
  unfolding answered ends pure
  out_of_fuel fuel gives_up t h = absurd (ground arith)
  out_of_fuel fuel (goes_on ret_val) t h = absurd (ground arith)
  out_of_fuel fuel retries t h =
      (refl, none-and_then (sending fuel) _ t (λ ret_val u never. ground arith) h)

  none-IsBusyFor : (fuel : ℕ) (s : Connection A N) → sending fuel s ≡ none → IsBusyFor fuel s
  none-IsBusyFor zero s h = now
  none-IsBusyFor (suc fuel) s h =
      judge (none-IsBusyFor fuel) (exchange A N m expected s).0 (exchange A N m expected s).1 refl
    where
      judge :
          ((t : Connection A N) → sending fuel t ≡ none → IsBusyFor fuel t)
          → (r : Result (Exchanged A N)) (t : Connection A N) → exchange A N m expected s ≡ (r, t)
          → IsBusyFor (suc fuel) s
      judge rest (throws why) t e =
          (let never = sym (sending-throws fuel why s t e) ∙ h in absurd (ground arith))
      judge rest (ok done) t e =
          let (is, out) = out_of_fuel fuel done t (sym (sending-suc fuel done s t e) ∙ h) in
          still (retries-exchange A N m expected (rw is at e)) (rest t out)

  -- `send_and_receive` runs out of fuel exactly if in so many exchanges, one after the other, as the
  -- fuel has, the connection opens, the message is sent, the expected message is not received, the
  -- last error is not one of a connection, and the message that came has the code
  -- `MSG_RETRY_LATER`. So it returns or throws as soon as one exchange is not such, and never while
  -- the server asks to retry.
  pub send_and_receive-none_iff :
      (fuel : ℕ) (s : Connection A N)
      → (send_and_receive A N fuel m expected s ≡ none) ↔ IsBusyFor fuel s
  send_and_receive-none_iff fuel s = (none-IsBusyFor fuel s, IsBusyFor-none fuel s)
