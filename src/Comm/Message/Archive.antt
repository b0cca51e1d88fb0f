-- ===== src/Comm/Message/Archive.antt =====
-- The content of a message: `Message::serialize`, the rest of `Message::send`, and
-- `Message::build_content`. The text archive of Boost is a parameter: what it wrote it reads back.
pub mod RoundTrip
pub mod Numbers
use pds_progetto.Base.{
  ℕ, ◌+◌, Text, Bool, Option, none, some, List, [], ◌++◌, ◌≡◌, length, take, drop,
}
use pds_progetto.Base.Dict.{Dict}
use pds_progetto.Cpp.Result.{Result, ok, throws, runtime_error, ◌>>=◌}
use pds_progetto.Comm.CommError.{CommErrno, CommError, try_again}
use pds_progetto.Comm.Message.{Message, MessageType, ElementStatus}
use pds_progetto.Comm.Message.Header.{header_buffer, build_header}

-- The members of a `Comm_error` that it serializes: not `original_ec`.
pub record SavedError : Type 0 where
  pub comm_errno : CommErrno
  pub message : Text
  pub location : Text

-- The members of a `Message` that it serializes: not `file`, which stands in `file_string`.
pub record Saved : Type 0 where
  pub code : MessageType
  pub username : Text
  pub password : Text
  pub path : Text
  pub hash : Text
  pub paths : List Text
  pub hashes : Dict Text Text
  pub file_string : Text
  pub element_status : ElementStatus
  pub comm_error : Option SavedError
  pub status : Bool
  pub cookie : Text
  pub keep_alive : Bool

unfoldable pub saved_error : Option CommError → Option SavedError
saved_error none = none
saved_error (some e) =
    some (record { comm_errno = e.comm_errno; message = e.message; location = e.location })

-- A loaded error has the `original_ec` of the default constructor.
unfoldable pub loaded_error : Option SavedError → Option CommError
loaded_error none = none
loaded_error (some e) = some (record {
  comm_errno = e.comm_errno;
  location = e.location;
  message = e.message;
  original_ec = try_again;
})

unfoldable pub serialize : Message → Saved
unfolding saved_error
serialize m = record {
  code = m.code;
  username = m.username;
  password = m.password;
  path = m.path;
  hash = m.hash;
  paths = m.paths;
  hashes = m.hashes;
  file_string = m.file_string;
  element_status = m.element_status;
  comm_error = saved_error m.comm_error;
  status = m.status;
  cookie = m.cookie;
  keep_alive = m.keep_alive;
}

unfoldable pub deserialize : Saved → Message
unfolding loaded_error
deserialize s = record {
  code = s.code;
  username = s.username;
  password = s.password;
  path = s.path;
  hash = s.hash;
  paths = s.paths;
  hashes = s.hashes;
  file = [];
  element_status = s.element_status;
  comm_error = loaded_error s.comm_error;
  status = s.status;
  cookie = s.cookie;
  keep_alive = s.keep_alive;
  file_string = s.file_string;
}

pub record Archive : Type 0 where
  pub save : Saved → Text
  pub load : Text → Option Saved
  pub load-save : (s : Saved) → load (save s) ≡ some s

module _ (A : Archive) where
  -- `send`: the message with its `file_string_`, and the two buffers.
  unfoldable pub send : Message → Message × Text × Text
  unfolding serialize
  send m =
      let m' = record m { file_string = m.file } in
      let content = A.save (serialize m') in (m', header_buffer m.code (length content), content)

  loaded : Option Saved → Result Message
  unfolding deserialize
  loaded none = throws runtime_error
  loaded (some s) =
      let m = deserialize s in ok (record m { file = m.file_string; file_string = [] })

  -- `build_content`, which throws where the archive does.
  unfoldable pub build_content : Text → Result Message
  unfolding loaded
  build_content buffer = loaded (A.load buffer)

  -- The bytes that `boost::asio::write` sends.
  unfoldable pub wire : Message → Text
  unfolding send
  wire m = let (m', header, content) = send m in header ++ content

  -- Reading one message from a stream of bytes: twelve bytes, then as many as the header says.
  unfoldable pub read_message : Text → Result (Message × Text)
  unfolding build_content
  read_message stream = do
    (code, n) ← build_header (take 12 stream)
    let rest = drop 12 stream
    m ← build_content (take n rest)
    ok (m, drop n rest)
