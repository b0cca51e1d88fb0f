-- ===== src/Comm/Message/Archive/RoundTrip.antt =====
-- `build_content` on what `send` wrote, and a whole message on the wire.
use mathlib.Core.List.{append_assoc}
use pds_progetto.Base.{
  ◌<◌, Text, Option, none, some, [], ◌++◌, ◌≡◌, refl, length, take-append, drop-append,
}
use pds_progetto.Cpp.Result.{ok}
use pds_progetto.Comm.CommError.{CommError, try_again}
use pds_progetto.Comm.Message.{Message, MessageType}
use pds_progetto.Comm.Message.Header.{header_buffer, build_header}
use pds_progetto.Comm.Message.Header.RoundTrip.{
  IsNamed, build_header-header_buffer, length-header_buffer,
}
use pds_progetto.Comm.Message.Archive.{
  Archive, serialize, deserialize, saved_error, loaded_error, send, build_content, wire,
  read_message,
}

-- An error as the other end sees it.
abbrev pub as_received : Option CommError → Option CommError
as_received none = none
as_received (some e) = some (record e { original_ec = try_again })

-- A message as the other end sees it.
abbrev pub received : Message → Message
received m = record m { comm_error = as_received m.comm_error; file_string = [] }

loaded_error-saved_error : (e : Option CommError) → loaded_error (saved_error e) ≡ as_received e
unfolding loaded_error saved_error
loaded_error-saved_error none = refl
loaded_error-saved_error (some e) = refl

module _ (A : Archive) where
  -- The content of a sent message is read back as the message, file included. Only the original
  -- error code of its error is lost.
  pub build_content-send : (m : Message) → build_content A (send A m).2 ≡ ok (received m)
  unfolding build_content send serialize deserialize
  build_content-send m = rw (A.load-save, loaded_error-saved_error m.comm_error)

  read_message-parts :
      (header content rest : Text) (code : MessageType) (m : Message)
      → length header ≡ 12
      → build_header header ≡ ok (code, length content)
      → build_content A content ≡ ok m
      → read_message A (header ++ (content ++ rest)) ≡ ok (m, rest)
  unfolding read_message
  read_message-parts header content rest code m twelve h c = rw (
    take-append 12 header (content ++ rest) twelve,
    drop-append 12 header (content ++ rest) twelve,
    h,
    take-append (length content) content rest refl,
    drop-append (length content) content rest refl,
    c,
  )

  -- Messages do not run into one another on the stream: a message with a named code and fewer than
  -- 2^28 bytes of content is read back, and the stream goes on where it ended.
  pub read_message-wire :
      (m : Message) (rest : Text)
      → IsNamed m.code
      → length (send A m).2 < 268435456
      → read_message A (wire A m ++ rest) ≡ ok (received m, rest)
  unfolding wire send
  read_message-wire m rest named short =
      let content = (send A m).2 in
      let header = header_buffer m.code (length content) in
      rw (append_assoc header content rest) (
        read_message-parts header content rest m.code (received m)
          (length-header_buffer m.code (length content))
          (build_header-header_buffer m.code (length content) named short) (build_content-send m))
