-- ===== src/Examples/Sockets.antt =====
-- Sockets at concrete inputs.
use pds_progetto.Comm.Message.Archive.Numbers.{numbers}
use pds_progetto.Comm.Message
use pds_progetto.Comm.Message.{Message, Bytes, msg_okay, msg_get}
use pds_progetto.Comm.Socket.{
  Asio, Socket, receive, connected, performed, Performed, call, failed_with,
}
use pds_progetto.Comm.Socket.Received.{IsStream, Ended, receive-wire}
use pds_progetto.Comm.Message.Archive.{send, wire}
use pds_progetto.Base.{
  Bool, drop, codes, length, true, ◌++◌, ◌<◌, false, none, arith, ◌≡◌, take, refl, ℕ, Option, [],
  ◌≤◌, suc,
}
use pds_progetto.Cpp.Result.{ok}
use pds_progetto.Cpp.Effect.{Effect}
use pds_progetto.Comm.Socket.Attempts.{IsCounted, IsExplained, call-Within}
use pds_progetto.Comm.CommError.{try_again}

-- A connection that is always open, with the bytes that are still to be read.
abbrev open_stream : Asio
open_stream = record {
  State = Bytes;
  has_socket = λ s. true;
  is_open = λ s. true;
  stopped = λ s. false;
  connect = λ s. (connected, s);
  write = λ bytes s. (ok (performed tt), s);
  read = λ k s. (ok (performed (take k s)), drop k s);
  shutdown_both = λ s. s;
  release_and_close = λ s. (none, s);
  reset = λ s. s;
}

abbrev open_stream-IsStream : IsStream open_stream
open_stream-IsStream = record {
  arriving = λ s. s;
  reads_first = λ k s usable enough. (drop k s, refl, refl, refl);
}

abbrev get_message : Message
get_message = Message.get (codes "a.txt")

abbrev waiting_socket : Socket open_stream numbers
waiting_socket = record {
  net = wire numbers get_message ++ codes "more";
  n_retry = 0;
  keep_alive = true;
  message = none;
  last_error = none;
}

short_message : length (send numbers get_message).2 < 268435456
unfolding send Message.get
short_message = omega arith

receive-wire_example :
    (done : Bool) × (t : Socket open_stream numbers) × (receive open_stream numbers msg_get
        waiting_socket
      ≡ (ok done, t))
    × Ended open_stream numbers open_stream-IsStream msg_get get_message (codes "more") done t
unfolding Message.get
receive-wire_example =
    receive-wire open_stream numbers open_stream-IsStream msg_get get_message (codes "more")
      waiting_socket (record { can_use = refl; unread = refl }) tt short_message

-- A write that fails, with a count of its runs.
abbrev failing_write : Effect ℕ (Performed (Unit {0}))
failing_write n = (ok (failed_with try_again), suc n)

abbrev counting : Asio
counting = record {
  State = ℕ;
  has_socket = λ s. true;
  is_open = λ s. true;
  stopped = λ s. false;
  connect = λ s. (connected, s);
  write = λ bytes. failing_write;
  read = λ k s. (ok (performed []), s);
  shutdown_both = λ s. s;
  release_and_close = λ s. (none, s);
  reset = λ s. s;
}

abbrev failing_write-IsCounted : IsCounted counting failing_write
failing_write-IsCounted = record { runs = λ n. n; once = λ n. omega arith }

abbrev retrying_socket : Socket counting numbers
retrying_socket = record {
  net = 0;
  n_retry = 1;
  keep_alive = false;
  message = none;
  last_error = none;
}

call-Within_example :
    (r : Option (Unit {0})) × (t : Socket counting numbers) × (call counting numbers failing_write
        retrying_socket
      ≡ (ok r, t))
    × (t.net ≤ 2)
    × IsExplained counting numbers failing_write failing_write-IsCounted r t
call-Within_example =
    call-Within counting numbers failing_write failing_write-IsCounted retrying_socket
