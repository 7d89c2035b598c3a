-- ===== src/Crypto/Primitives.antt =====
-- What the program takes from crypto/aes, crypto/hmac with crypto/sha1, and the errors that the
-- package crypto reports.
use go_steam.Base.{ℕ, Bytes, length, All, IsByte, ◌≡◌}

-- AES-256 on one block and HMAC-SHA1, with what their documentation promises: blocks of 16 bytes,
-- decryption undoing encryption, and digests of 20 bytes.
pub record Primitives : Type 0 where
  pub encrypt_block : Bytes → Bytes → Bytes
  pub decrypt_block : Bytes → Bytes → Bytes
  pub hmac_sha1 : Bytes → Bytes → Bytes
  pub length-encrypt_block : (key block : Bytes) → length (encrypt_block key block) ≡ 16
  pub length-decrypt_block : (key block : Bytes) → length (decrypt_block key block) ≡ 16
  pub encrypt_block-IsByte : (key block : Bytes) → All IsByte (encrypt_block key block)
  pub decrypt_block-encrypt_block :
      (key block : Bytes)
      → length block ≡ 16
      → All IsByte block
      → decrypt_block key (encrypt_block key block) ≡ block
  pub length-hmac_sha1 : (key message : Bytes) → length (hmac_sha1 key message) ≡ 20
  pub hmac_sha1-IsByte : (key message : Bytes) → All IsByte (hmac_sha1 key message)

abbrev pub block_size : ℕ
block_size = 16

pub data CryptoError : Type 0 where
  empty_input key_length iv_length random_failed : CryptoError
  input_too_short block_multiple padded_data padding hmac_mismatch : CryptoError
