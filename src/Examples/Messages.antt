-- ===== src/Examples/Messages.antt =====
-- Messages, their wire format and digests at concrete inputs.
use pds_progetto.Base.{◌<◌, some, [], ◌∷◌, ◌++◌, codes, ◌≡◌, refl, arith, length}
use pds_progetto.Examples.Disk.{keep_all}
use pds_progetto.Base.Int.{pos, negsuc}
use pds_progetto.Cpp.Result.{ok}
use pds_progetto.Cpp.Numbers.{to_string, stoi, show, setw}
use pds_progetto.Comm.Message.{Message, MessageType, msg_push, msg_get, push, created_file}
use pds_progetto.Comm.Message.Header.{build_header, header_buffer}
use pds_progetto.Comm.Message.Header.RoundTrip.{build_header-header_buffer, length-header_buffer}
use pds_progetto.Comm.Message.Archive.{send, wire, build_content, read_message}
use pds_progetto.Comm.Message.Archive.RoundTrip.{received, build_content-send, read_message-wire}
use pds_progetto.Comm.Message.Archive.Numbers.{numbers}
use pds_progetto.Comm.Utils.{digest_hex, hash, sha256_file}
use pds_progetto.Comm.Utils.Digest.{sha256_file-hash, length-digest_hex}

abbrev push_message : Message
push_message = push (codes "text") (codes "/a.txt") (codes "ab12") created_file

build_header-header_buffer_example : build_header (header_buffer msg_push 419) ≡ ok (msg_push, 419)
build_header-header_buffer_example = build_header-header_buffer msg_push 419 tt (omega arith)

length-header_buffer_example : length (header_buffer msg_get 70000) ≡ 12
length-header_buffer_example = length-header_buffer msg_get 70000

build_content-send_example :
    build_content numbers (send numbers push_message).2 ≡ ok (received push_message)
build_content-send_example = build_content-send numbers push_message

short : length (send numbers push_message).2 < 268435456
unfolding send push
short = omega arith

read_message-wire_example :
    read_message numbers (wire numbers push_message ++ codes "more")
    ≡ ok (received push_message, codes "more")
unfolding push
read_message-wire_example = read_message-wire numbers push_message (codes "more") tt short

sha256_file-hash_example :
    sha256_file keep_all 4 (some (codes "abc")) ≡ some (ok (hash keep_all (codes "abc")))
sha256_file-hash_example = sha256_file-hash keep_all 4 (codes "abc") (omega arith)

length-digest_hex_example : length (digest_hex (255 ∷ 7 ∷ [])) ≡ 4
length-digest_hex_example = length-digest_hex (255 ∷ 7 ∷ []) (omega arith, (omega arith, tt))

test_stoi : stoi (codes " 42x") ≡ ok (pos 42)
unfolding stoi
test_stoi = refl

test_to_string : to_string (negsuc 999) ≡ codes "-1000"
unfolding to_string
test_to_string = refl

test_show : setw 8 (show 16 419) ≡ codes "     1a3"
unfolding show setw
test_show = refl

test_header : build_header (header_buffer MessageType.msg_push 419) ≡ ok (MessageType.msg_push, 419)
unfolding build_header header_buffer
test_header = refl
