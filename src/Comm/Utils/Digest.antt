-- ===== src/Comm/Utils/Digest.antt =====
-- `Utils::SHA256` reads the file in blocks and yields the same text as `Utils::hash` of it.
use pds_progetto.Base.{
  ℕ, zero, suc, ◌<◌, ◌-◌, ◌*◌, some, [], ◌∷◌, ◌≡◌, refl, inl, inr, length, take, drop, ltb, arith,
  Bool-cases, take-drop, take_all, length-drop, length-append, replicate, length-replicate, All,
}
use pds_progetto.Cpp.Result.{ok}
use pds_progetto.Cpp.Numbers.{show}
use pds_progetto.Cpp.Numbers.RoundTrip.{length-show}
use pds_progetto.Comm.Message.{Bytes}
use pds_progetto.Comm.Utils.{Sha256, byte_hex, digest_hex, hash, read_blocks, sha256_file}

module _ (H : Sha256) where
  read_blocks_lem :
      (fuel : ℕ) (ctx : H.Ctx) (content : Bytes)
      → length content < fuel
      → read_blocks H fuel ctx content ≡ some (H.update ctx content)
  unfolding read_blocks
  read_blocks_lem zero ctx content h = absurd (omega arith)
  read_blocks_lem (suc fuel) ctx content h = elim (Bool-cases (ltb (length content) 4096)) [
    | inl last ↦ rw (last, take_all 4096 content (ground arith)) refl
    | inr more ↦
        rw
          (
            more,
            read_blocks_lem fuel (H.update ctx (take 4096 content)) (drop 4096 content)
                (ground (arith, length-drop 4096 content)),
            H.update-append ctx (take 4096 content) (drop 4096 content),
            take-drop 4096 content,
          )
          refl
  ]

  -- With fuel for its length, the digest of a file is that of its content, however many blocks it has.
  pub sha256_file-hash :
      (fuel : ℕ) (content : Bytes)
      → length content < fuel
      → sha256_file H fuel (some content) ≡ some (ok (hash H content))
  unfolding sha256_file hash
  sha256_file-hash fuel content h = rw (read_blocks_lem fuel H.init content h)

length-byte_hex : (b : ℕ) → b < 256 → length (byte_hex b) ≡ 2
unfolding byte_hex
length-byte_hex b h = omega (
  arith,
  length-append (replicate (2 - length (show 16 b)) 48) (show 16 b),
  length-replicate {A = ℕ} (2 - length (show 16 b)) 48,
  length-show 16 (omega arith) (omega arith) 1 b (omega arith),
)

-- The text of a digest has two characters for each byte.
pub length-digest_hex :
    (bs : Bytes) → All (λ b. b < 256) bs → length (digest_hex bs) ≡ 2 * length bs
unfolding digest_hex
length-digest_hex [] h = refl
length-digest_hex (b ∷ bs) h = omega (
  arith,
  length-append (byte_hex b) (digest_hex bs),
  length-byte_hex b h.0,
  length-digest_hex bs h.1,
)
