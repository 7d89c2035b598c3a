-- ===== src/Crypto/Symmetric.antt =====
-- `SymmetricEncrypt`, `SymmetricEncryptWithHmacIv` (crypto/encrypt.go), `SymmetricDecrypt` and
-- `SymmetricDecryptECB` (crypto/decrypt.go). `rand n` is what `rand.Read` puts into `n` bytes, and
-- `none` if it fails. With a key of 32 bytes `aes.NewCipher` returns no error.
pub mod RoundTrip
use go_steam.Base.{
  bytes_equal, ℕ, ◌+◌, ◌-◌, ◌*◌, ◌/◌, ◌%◌, ◌≤◌, ◌<◌, Bool, true, false, ◌&&◌, ◌||◌, not, Option,
  none, some, [], ◌∷◌, ◌++◌, ◌≡◌, ◌≢◌, refl, ap, ◌∙◌, Bytes, length, take, drop, length-append,
  length-take, take-append, drop-append, All, IsByte, All-append, ltb, ltb→lt, lt→ltb, ◌==◌,
  if◌then◌else◌, arith, inl, inr, Bool-cases,
}
use go_steam.Base.Results.{Result, ok, err, or_err, guard, ◌>>=◌, ◌>>◌}
use go_steam.Crypto.Primitives.{
  Primitives, CryptoError, block_size, empty_input, key_length, iv_length, random_failed,
  input_too_short, block_multiple, hmac_mismatch,
}
use go_steam.Crypto.Pkcs7.{pkcs7_pad, pkcs7_unpad, pkcs7_unpad-pkcs7_pad, length-pkcs7_pad}
use go_steam.Crypto.Cbc.{
  cbc_encrypt, cbc_decrypt, ecb_decrypt, cbc_decrypt-cbc_encrypt, length-cbc_encrypt,
}

module _ (prim : Primitives) where
  open prim use {encrypt_block, decrypt_block, hmac_sha1}

  -- What is sent: the encrypted initialisation vector, and the padded input in CBC mode.
  pub sealed : Bytes → Bytes → Bytes → Bytes
  sealed input key iv =
      let padded = pkcs7_pad input block_size in
      encrypt_block key iv ++ cbc_encrypt prim key (length padded / block_size) iv padded

  pub symmetric_encrypt :
      (ℕ → Option Bytes) → Bytes → Bytes → Option Bytes → Result CryptoError Bytes
  symmetric_encrypt rand input key iv = do
    guard (not (length input == 0)) empty_input
    guard (length key == 32) key_length
    guard (elim iv [ none ↦ true | some v ↦ length v == block_size ]) iv_length
    v ← or_err (elim iv [ none ↦ rand block_size | some v ↦ some v ]) random_failed
    ok (sealed input key v)

  -- The first 13 bytes of the digest of the random bytes and the message.
  pub partial_hmac : Bytes → Bytes → Bytes → Bytes
  partial_hmac key random message = take 13 (hmac_sha1 (take 16 key) (random ++ message))

  pub symmetric_encrypt_with_hmac_iv : (ℕ → Option Bytes) → Bytes → Bytes → Result CryptoError Bytes
  symmetric_encrypt_with_hmac_iv rand input key = do
    guard (not (length input == 0)) empty_input
    guard (not (ltb (length key) 16)) key_length
    random ← or_err (rand 3) random_failed
    symmetric_encrypt rand input key (some (partial_hmac key random input ++ random))

  -- The end of `SymmetricDecrypt`: the padding is taken off and the digest checked, if asked for.
  pub unpad_and_check : Bytes → Bool → Bytes → Bytes → Result CryptoError Bytes
  unpad_and_check key check_hmac iv padded = do
    plaintext ← pkcs7_unpad padded block_size
    guard (not check_hmac || bytes_equal (take 13 iv) (partial_hmac key (drop 13 iv) plaintext))
        hmac_mismatch
    ok plaintext

  pub symmetric_decrypt : Bytes → Bytes → Bool → Result CryptoError Bytes
  symmetric_decrypt input key check_hmac = do
    guard (not (ltb (length input) block_size)) input_too_short
    guard (length key == 32) key_length
    let iv = decrypt_block key (take block_size input)
    let ciphertext = drop block_size input
    guard (length ciphertext % block_size == 0) block_multiple
    unpad_and_check key check_hmac iv
        (cbc_decrypt prim key (length ciphertext / block_size) iv ciphertext)

  pub symmetric_decrypt_ecb : Bytes → Bytes → Result CryptoError Bytes
  symmetric_decrypt_ecb input key = do
    guard (not (length input == 0)) empty_input
    guard (length key == 32) key_length
    guard (length input % block_size == 0) block_multiple
    pkcs7_unpad (ecb_decrypt prim key (length input / block_size) input) block_size
