-- ===== src/Comm/Utils.antt =====
-- comm/Utils.h and comm/Utils.cpp: digests and cookies. SHA-256 of OpenSSL is a parameter.
pub mod Digest
use pds_progetto.Base.{
  ℕ, zero, suc, ◌-◌, Text, Option, none, some, List, [], ◌∷◌, ◌++◌, ◌≡◌, length, take, drop,
  replicate, ltb, if◌then◌else◌,
}
use pds_progetto.Cpp.Result.{Result, ok, throws, runtime_error}
use pds_progetto.Cpp.Numbers.{show}
use pds_progetto.Comm.Message.{Bytes}

-- `SHA256_Init`, `SHA256_Update` and `SHA256_Final`.
pub record Sha256 : Type 1 where
  pub Ctx : Type 0
  pub init : Ctx
  pub update : Ctx → Bytes → Ctx
  pub final : Ctx → Bytes
  -- Hashing a sequence in pieces is hashing it whole.
  pub update-nil : (c : Ctx) → update c [] ≡ c
  pub update-append : (c : Ctx) (xs ys : Bytes) → update (update c xs) ys ≡ update c (xs ++ ys)

-- `setfill('0') << setw(2) << hex` of one byte.
unfoldable pub byte_hex : ℕ → Text
unfolding show
byte_hex b = let s = show 16 b in replicate (2 - length s) b'0' ++ s

unfoldable pub digest_hex : Bytes → Text
unfolding byte_hex
digest_hex [] = []
digest_hex (b ∷ bs) = byte_hex b ++ digest_hex bs

module _ (H : Sha256) where
  -- `Utils::hash`.
  unfoldable pub hash : Text → Text
  unfolding digest_hex
  hash input = digest_hex (H.final (H.update H.init input))

  -- The loop of `Utils::SHA256` on fuel: a read that returns fewer than 4096 bytes is the last one.
  unfoldable pub read_blocks : ℕ → H.Ctx → Bytes → Option H.Ctx
  read_blocks zero ctx content = none
  read_blocks (suc fuel) ctx content =
      let ctx' = H.update ctx (take 4096 content) in
      let rest = read_blocks fuel ctx' (drop 4096 content) in
      if ltb (length content) 4096 then some ctx' else rest

  digest_of : Option H.Ctx → Option (Result Text)
  unfolding digest_hex
  digest_of none = none
  digest_of (some ctx) = some (ok (digest_hex (H.final ctx)))

  -- `Utils::SHA256` of the file's content, if it can be opened; the outer `none` is out of fuel.
  unfoldable pub sha256_file : ℕ → Option Bytes → Option (Result Text)
  unfolding digest_of read_blocks
  sha256_file fuel none = some (throws runtime_error)
  sha256_file fuel (some content) = digest_of (read_blocks fuel H.init content)

unfoldable pub sign_cookie : Text → Text
sign_cookie plain_cookie = plain_cookie

unfoldable pub verify_cookie : Text → Text
verify_cookie cipher_cookie = cipher_cookie
