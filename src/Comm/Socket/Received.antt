-- ===== src/Comm/Socket/Received.antt =====
-- Receiving what a connection carries: `Socket_API::receive` of comm/Socket_API.cpp.
use mathlib.Core.List.{append_assoc}
use pds_progetto.Comm.Message.Archive.RoundTrip.{received, build_content-send}
use pds_progetto.Cpp.Effect.{◌>>=◌, pure, modify, bind-returned}
use pds_progetto.Comm.Socket.{
  Asio, Socket, call, usable, attempts, performed, receive_header, receive_content, receive_rest,
  is_expected, receive, built, failing, comm_error,
}
use pds_progetto.Comm.Message.{Bytes, MessageType, Message, new_message, msg_error}
use pds_progetto.Comm.Message.Archive.{Archive, build_content, wire, send}
use pds_progetto.Base.{
  ℕ, ◌&&◌, ◌≡◌, length, true, ◌++◌, ◌≤◌, some, take, ◌∙◌, drop, length-append, arith, ap,
  take-append, drop-append, refl, Bool, Bool-cases, inl, inr, if◌then◌else◌, false, sym, ◌<◌,
}
use pds_progetto.Cpp.Result.{ok}
use pds_progetto.Comm.CommError.{ce_unexpected_type}
use pds_progetto.Comm.Message.Header.RoundTrip.{
  IsNamed, length-header_buffer, build_header-header_buffer,
}
use pds_progetto.Comm.Message.Header.{header_buffer}

-- The bytes that have arrived: a read of no more of them gives the first ones, and the socket stays
-- open.
pub record IsStream (A : Asio) : Type 0 where
  pub arriving : A.State → Bytes
  pub reads_first :
      (k : ℕ) (s : A.State)
      → (A.has_socket s && A.is_open s) ≡ true
      → k ≤ length (arriving s)
      → (s' : A.State) × (A.read k s ≡ (ok (performed (take k (arriving s))), s'))
        × (arriving s' ≡ drop k (arriving s))
        × ((A.has_socket s' && A.is_open s') ≡ true)

module _ (A : Asio) (N : Archive) (T : IsStream A) where
  -- A socket with these bytes to read.
  pub record Reading (bytes : Bytes) (s : Socket A N) : Type 0 where
    pub can_use : usable A N s ≡ true
    pub unread : T.arriving s.net ≡ bytes

  call-read :
      (k : ℕ) (first rest : Bytes) (s : Socket A N)
      → length first ≡ k
      → Reading (first ++ rest) s
      → (t : Socket A N) × (call A N (A.read k) s ≡ (ok (some first), t)) × Reading rest t
  unfolding call attempts
  call-read k first rest s same r =
      let (net, e, left, open_still) =
        T.reads_first k s.net r.can_use
          (rw (r.unread, length-append first rest, same) (omega arith)) in
      let cut : take k (T.arriving s.net) ≡ first =
        rw (r.unread, take-append k first rest same) refl in
      let dropped : drop k (T.arriving s.net) ≡ rest =
        rw (r.unread, drop-append k first rest same) refl in
      (
        record s { net = net },
        rw (r.can_use, attempts) (rw (e ∙ ap (λ b. (ok (performed b), net)) cut) refl),
        record { can_use = open_still; unread = left ∙ dropped },
      )

  receive_header-read :
      (first rest : Bytes) (s : Socket A N)
      → length first ≡ 12
      → Reading (first ++ rest) s
      → (t : Socket A N) × (receive_header A N s ≡ (ok (some first), t)) × Reading rest t
  unfolding receive_header pure
  receive_header-read first rest s same r =
      let (t, e, left) = call-read 12 first rest s same r in
      (t, bind-returned _ _ (some first) e, left)

  receive_content-read :
      (first rest : Bytes) (s : Socket A N)
      → Reading (first ++ rest) s
      → (t : Socket A N) × (receive_content A N (length first) s ≡ (ok (some first), t))
        × Reading rest t
  unfolding receive_content pure
  receive_content-read first rest s r =
      let (t, e, left) = call-read (length first) first rest s refl r in
      (t, bind-returned _ _ (some first) e, left)

  -- What `receive` returns and keeps of a message with this code.
  pub record Ended (expected : MessageType) (m : Message) (rest : Bytes) (done : Bool)
      (t : Socket A N) : Type 0 where
    pub returned : done ≡ is_expected A N expected m.code
    pub left : Reading rest t
    pub kept :
        done ≡ true → (t.message ≡ some (received m)) × (t.last_error ≡ (received m).comm_error)

  -- The socket before the content is read.
  abbrev before : MessageType → MessageType → Socket A N → Socket A N
  before expected code s =
      (if is_expected A N expected code
          then (λ s. s)
          else failing A N (
              comm_error ce_unexpected_type "Socket_API::receive_header_"
                "Expected another message code"))
        (record s { message = some (record (new_message msg_error) { code = code }) })

  before-Reading :
      (expected code : MessageType) (bytes : Bytes) (s : Socket A N)
      → Reading bytes s
      → Reading bytes (before expected code s)
  before-Reading expected code bytes s r = elim (Bool-cases (is_expected A N expected code)) [
    | inl fits ↦ rw (fits) (record { can_use = r.can_use; unread = r.unread })
    | inr other ↦ rw (other) (record { can_use = r.can_use; unread = r.unread })
  ]

  ends_with :
      (expected : MessageType) (m : Message) (content rest : Bytes) (t : Socket A N)
      → build_content N content ≡ ok (received m)
      → Reading rest t
      → (done : Bool) × (u : Socket A N) × ((if is_expected A N expected m.code
              then built A N content
              else pure false)
            t
          ≡ (ok done, u))
        × Ended expected m rest done u
  unfolding built pure ◌>>=◌ modify
  ends_with expected m content rest t good r = elim (Bool-cases (is_expected A N expected m.code)) [
    | inl fits ↦ (
      true,
      record t { message = some (received m); last_error = (received m).comm_error },
      rw (fits, good, built) refl,
      record {
        returned = sym fits;
        left = record { can_use = r.can_use; unread = r.unread };
        kept = λ h. (refl, refl);
      },
    )
    | inr other ↦
        (false, t, rw (other) refl, record { returned = sym other; left = r; kept = λ h. cc })
  ]

  receive_rest-read :
      (expected : MessageType) (m : Message) (content rest : Bytes) (s : Socket A N)
      → build_content N content ≡ ok (received m)
      → Reading (content ++ rest) s
      → (done : Bool) × (t : Socket A N) × (receive_rest A N expected (m.code, length content) s
          ≡ (ok done, t))
        × Ended expected m rest done t
  unfolding receive_rest modify
  receive_rest-read expected m content rest s good r =
      let (t, e, left) =
        receive_content-read content rest (before expected m.code s)
          (before-Reading expected m.code _ s r) in
      let (done, u, ended, how) = ends_with expected m content rest t good left in
      (
        done,
        u,
        bind-returned _ _ tt refl
            ∙ (bind-returned _ _ tt refl ∙ (bind-returned _ _ (some content) e ∙ ended)),
        how,
      )

  -- A usable socket on which a message with a named code and fewer than 2^28 bytes of content has
  -- arrived: `receive` returns whether the code is the expected one (any, with `MSG_UNDEFINED`) or
  -- that of an error; it has read exactly this message in both cases, and if it returns true it keeps
  -- the receiver's view of the message and the error in it.
  pub receive-wire :
      (expected : MessageType) (m : Message) (rest : Bytes) (s : Socket A N)
      → Reading (wire N m ++ rest) s
      → IsNamed m.code
      → length (send N m).2 < 268435456
      → (done : Bool) × (t : Socket A N) × (receive A N expected s ≡ (ok done, t))
        × Ended expected m rest done t
  unfolding receive modify wire send
  receive-wire expected m rest s r named short =
      let content = (send N m).2 in
      let header = header_buffer m.code (length content) in
      let s0 = record s { message = some (new_message msg_error) } in
      let (t, e, left) =
        receive_header-read header (content ++ rest) s0
          (length-header_buffer m.code (length content))
          (record { can_use = r.can_use; unread = r.unread ∙ append_assoc header content rest }) in
      let (done, u, ended, how) =
        receive_rest-read expected m content rest t (build_content-send N m) left in
      (
        done,
        u,
        bind-returned _ _ tt refl
            ∙ (bind-returned _ _ (some header) e
                ∙ (rw (build_header-header_buffer m.code (length content) named short) ended)),
        how,
      )
