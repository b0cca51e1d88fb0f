-- ===== src/Comm/Message/Header/RoundTrip.antt =====
-- `build_header` on what `send` wrote.
use mathlib.Core.List.{append_assoc, append-nil}
use pds_progetto.Base.{
  codes, ℕ, suc, ◌-◌, ◌≤◌, ◌<◌, Text, false, [], ◌∷◌, ◌++◌, ◌≡◌, refl, length, take, replicate,
  arith, length-append, length-replicate, length-take, take_all,
}
use pds_progetto.Base.Int.{ℤ, negsuc}
use pds_progetto.Cpp.Result.{ok}
use pds_progetto.Cpp.Numbers.{show, to_string, setw, scan, signed}
use pds_progetto.Cpp.Numbers.RoundTrip.{Ends, scan-show, length-show}
use pds_progetto.Comm.Message.{
  MessageType, code_of, cast_code, msg_error, msg_undefined, msg_okay, msg_login, msg_probe,
  msg_probe_content, msg_get, msg_get_content, msg_push, msg_restore, msg_restore_content, msg_end,
  msg_retry_later, unnamed,
}
use pds_progetto.Comm.Message.Header.{
  header_data, header_buffer, build_header, read_code, read_rest,
}

length-setw : (w : ℕ) (s : Text) → length s ≤ w → length (setw w s) ≡ w
unfolding setw
length-setw w s h = omega (
  arith,
  length-append (replicate (w - length s) 32) s,
  length-replicate {A = ℕ} (w - length s) 32,
)

-- The length field keeps a leading space as long as seven digits are enough.
setw-padded :
    (n : ℕ)
    → n < 268435456
    → (k : ℕ) × (setw 8 (show 16 n) ≡ 32 ∷ (replicate k 32 ++ (show 16 n ++ [])))
unfolding setw
setw-padded n h =
    let short : length (show 16 n) ≤ 7 =
      length-show 16 (omega arith) (omega arith) 6 n (omega arith) in
    let room : 8 - length (show 16 n) ≡ suc (7 - length (show 16 n)) = omega arith in
    (7 - length (show 16 n), rw (room, append-nil (show 16 n)))

read_rest-setw :
    (z : ℤ) (n : ℕ) → n < 268435456 → read_rest (z, setw 8 (show 16 n)) ≡ ok (cast_code z, n)
unfolding read_rest
read_rest-setw z n h =
    let (k, e) = setw-padded n h in
    rw (e, scan-show 16 (omega arith) (omega arith) (suc k) n [] tt) (ground arith)

-- A code of at most four digits, with what follows it.
read_code-setw :
    (m n : ℕ)
    → m < 10000
    → n < 268435456
    → read_code (scan 10 (setw 4 (show 10 m) ++ setw 8 (show 16 n)))
      ≡ ok (signed false m, setw 8 (show 16 n))
unfolding setw
read_code-setw m n small h =
    let (k, e) = setw-padded n h in
    let ends : Ends 10 (setw 8 (show 16 n)) = rw e refl in
    rw
      (
        append_assoc (replicate (4 - length (show 10 m)) 32) (show 10 m) (setw 8 (show 16 n)),
        scan-show 10 (omega arith) (omega arith) (4 - length (show 10 m)) m (setw 8 (show 16 n))
            ends,
      )
      (ground arith)

abbrev pub IsNamed : MessageType → Type 0
IsNamed (unnamed z) = ⊥
IsNamed _ = Unit

-- Within the limit the header is its whole text.
header_buffer-whole :
    (s : Text) (n : ℕ)
    → length s ≤ 4
    → n < 268435456
    → take 12 (setw 4 s ++ setw 8 (show 16 n)) ≡ setw 4 s ++ setw 8 (show 16 n)
header_buffer-whole s n short h = take_all 12 _ (
    omega (
      arith,
      length-append (setw 4 s) (setw 8 (show 16 n)),
      length-setw 4 s short,
      length-setw 8 (show 16 n)
          (omega (arith, length-show 16 (omega arith) (omega arith) 6 n (omega arith))),
    ))

build_header-number :
    (m n : ℕ)
    → m < 10000
    → n < 268435456
    → build_header (take 12 (setw 4 (show 10 m) ++ setw 8 (show 16 n)))
      ≡ ok (cast_code (signed false m), n)
unfolding build_header
build_header-number m n small h =
    rw
      (
        header_buffer-whole (show 10 m) n
            (length-show 10 (omega arith) (omega arith) 3 m (omega arith)) h,
        read_code-setw m n small h,
      )
      (read_rest-setw (signed false m) n h)

scan-minus_one :
    (s : Text) → read_code (scan 10 (setw 4 (codes "-1") ++ (32 ∷ s))) ≡ ok (negsuc 0, 32 ∷ s)
unfolding scan setw
scan-minus_one s = refl

build_header-minus_one :
    (n : ℕ)
    → n < 268435456
    → build_header (take 12 (setw 4 (codes "-1") ++ setw 8 (show 16 n)))
      ≡ ok (cast_code (negsuc 0), n)
unfolding build_header
build_header-minus_one n h =
    let (k, e) = setw-padded n h in
    let code : read_code (scan 10 (setw 4 (codes "-1") ++ setw 8 (show 16 n)))
        ≡ ok (negsuc 0, setw 8 (show 16 n)) =
      rw e (scan-minus_one (replicate k 32 ++ (show 16 n ++ []))) in
    rw (header_buffer-whole (codes "-1") n (omega arith) h, code) (read_rest-setw (negsuc 0) n h)

-- A message with a named code and fewer than 2^28 bytes of content has a header from which
-- `build_header` reads the code and the length.
pub build_header-header_buffer :
    (code : MessageType) (n : ℕ)
    → IsNamed code
    → n < 268435456
    → build_header (header_buffer code n) ≡ ok (code, n)
unfolding header_buffer code_of cast_code
build_header-header_buffer msg_error n named h = build_header-minus_one n h
build_header-header_buffer msg_undefined n named h = build_header-number 0 n (omega arith) h
build_header-header_buffer msg_okay n named h = build_header-number 1 n (omega arith) h
build_header-header_buffer msg_login n named h = build_header-number 2 n (omega arith) h
build_header-header_buffer msg_probe n named h = build_header-number 3 n (omega arith) h
build_header-header_buffer msg_probe_content n named h = build_header-number 4 n (omega arith) h
build_header-header_buffer msg_get n named h = build_header-number 5 n (omega arith) h
build_header-header_buffer msg_get_content n named h = build_header-number 6 n (omega arith) h
build_header-header_buffer msg_push n named h = build_header-number 7 n (omega arith) h
build_header-header_buffer msg_restore n named h = build_header-number 8 n (omega arith) h
build_header-header_buffer msg_restore_content n named h = build_header-number 9 n (omega arith) h
build_header-header_buffer msg_end n named h = build_header-number 100 n (omega arith) h
build_header-header_buffer msg_retry_later n named h = build_header-number 101 n (omega arith) h
build_header-header_buffer (unnamed z) n named h = absurd named

setw-length_ge : (w : ℕ) (s : Text) → w ≤ length (setw w s)
unfolding setw
setw-length_ge w s = omega (
  arith,
  length-append (replicate (w - length s) 32) s,
  length-replicate {A = ℕ} (w - length s) 32,
)

-- The header buffer has twelve bytes, whatever the code and the length.
pub length-header_buffer : (code : MessageType) (n : ℕ) → length (header_buffer code n) ≡ 12
unfolding header_buffer header_data
length-header_buffer code n = length-take 12 (header_data code n) (
    omega (
      arith,
      length-append (setw 4 (to_string (code_of code))) (setw 8 (show 16 n)),
      setw-length_ge 4 (to_string (code_of code)),
      setw-length_ge 8 (show 16 n),
    ))
