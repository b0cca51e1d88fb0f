-- ===== src/Comm/Message.antt =====
-- comm/Message.h, comm/ElementStatus.h and the factories of comm/Message.cpp.
pub mod Header
pub mod Archive
use pds_progetto.Base.{
  ℕ, zero, suc, Text, String, Bool, true, false, Option, none, some, List, [], ◌∷◌, codes, not,
  if◌then◌else◌,
}
use pds_progetto.Base.Int.{ℤ, pos, negsuc, ◌==ℤ◌}
use pds_progetto.Base.Dict.{Dict}
use pds_progetto.Comm.CommError.{CommError}

-- The underlying type is `int`, and the archive loads any number of it.
pub data ElementStatus : Type 0 where
  created_file modified_file erased_file created_dir erased_dir : ElementStatus
  unnamed_status : ℤ → ElementStatus

-- The underlying type is `int32_t`, so a cast may also give a value that has no name.
pub data MessageType : Type 0 where
  msg_error msg_undefined msg_okay msg_login msg_probe msg_probe_content msg_get : MessageType
  msg_get_content msg_push msg_restore msg_restore_content msg_end msg_retry_later : MessageType
  unnamed : ℤ → MessageType

unfoldable pub code_of : MessageType → ℤ
code_of msg_error = negsuc 0
code_of msg_undefined = pos 0
code_of msg_okay = pos 1
code_of msg_login = pos 2
code_of msg_probe = pos 3
code_of msg_probe_content = pos 4
code_of msg_get = pos 5
code_of msg_get_content = pos 6
code_of msg_push = pos 7
code_of msg_restore = pos 8
code_of msg_restore_content = pos 9
code_of msg_end = pos 100
code_of msg_retry_later = pos 101
code_of (unnamed n) = n

-- `static_cast<MESSAGE_TYPE>(n)`.
unfoldable pub cast_code : ℤ → MessageType
cast_code n =
    if n ==ℤ negsuc 0
    then msg_error
    else if n ==ℤ pos 0
    then msg_undefined
    else if n ==ℤ pos 1
    then msg_okay
    else if n ==ℤ pos 2
    then msg_login
    else if n ==ℤ pos 3
    then msg_probe
    else if n ==ℤ pos 4
    then msg_probe_content
    else if n ==ℤ pos 5
    then msg_get
    else if n ==ℤ pos 6
    then msg_get_content
    else if n ==ℤ pos 7
    then msg_push
    else if n ==ℤ pos 8
    then msg_restore
    else if n ==ℤ pos 9
    then msg_restore_content
    else if n ==ℤ pos 100
    then msg_end
    else if n ==ℤ pos 101
    then msg_retry_later
    else unnamed n

-- `code == other`.
unfoldable pub same_code : MessageType → MessageType → Bool
unfolding code_of
same_code a b = code_of a ==ℤ code_of b

-- The bytes of a file.
abbrev pub Bytes : Type 0
Bytes = List ℕ

pub record Message : Type 0 where
  pub code : MessageType
  pub username : Text
  pub password : Text
  pub path : Text
  pub hash : Text
  pub paths : List Text
  pub hashes : Dict Text Text
  pub file : Bytes
  pub element_status : ElementStatus
  pub comm_error : Option CommError
  pub status : Bool
  pub cookie : Text
  pub keep_alive : Bool
  -- `file_string_`, in which `file` is serialized.
  pub file_string : Text

abbrev pub cookie_keep_the_same : Text
cookie_keep_the_same = codes "KEEP_THE_SAME"

-- The constructor and the initializers of the members.
unfoldable pub new_message : MessageType → Message
unfolding same_code
new_message code = record {
  code = code;
  username = [];
  password = [];
  path = [];
  hash = [];
  paths = [];
  hashes = [];
  file = [];
  element_status = modified_file;
  comm_error = none;
  status = not (same_code code msg_error);
  cookie = [];
  keep_alive = false;
  file_string = [];
}

unfoldable pub is_okay : Message → Bool
is_okay m = m.status

unfoldable pub okay : Message
unfolding new_message
okay = new_message msg_okay

unfoldable pub error : CommError → Message
unfolding new_message
error e = record (new_message msg_error) { comm_error = some e }

unfoldable pub login : Text → Text → Message
unfolding new_message
login username password = record (new_message msg_login) {
  username = username;
  password = password;
}

unfoldable pub probe : List Text → Message
unfolding new_message
probe paths = record (new_message msg_probe) { paths = paths }

unfoldable pub probe_content : Dict Text Text → Message
unfolding new_message
probe_content hashes = record (new_message msg_probe_content) { hashes = hashes }

unfoldable pub get : Text → Message
unfolding new_message
get path = record (new_message msg_get) { path = path }

unfoldable pub get_content : Bytes → Text → ElementStatus → Message
unfolding new_message
get_content file path status = record (new_message msg_get_content) {
  file = file;
  path = path;
  element_status = status;
}

unfoldable pub push : Bytes → Text → Text → ElementStatus → Message
unfolding new_message
push file path hash status = record (new_message msg_push) {
  file = file;
  path = path;
  hash = hash;
  element_status = status;
}

unfoldable pub restore : Message
unfolding new_message
restore = new_message msg_restore

unfoldable pub restore_content : List Text → Message
unfolding new_message
restore_content paths = record (new_message msg_restore_content) { paths = paths }

unfoldable pub end : Message
unfolding new_message
end = new_message msg_end

unfoldable pub retry_later : Message
unfolding new_message
retry_later = new_message msg_retry_later
