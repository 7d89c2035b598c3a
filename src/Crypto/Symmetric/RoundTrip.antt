-- ===== src/Crypto/Symmetric/RoundTrip.antt =====
-- Encryption and decryption together: what is sent opens again, and what opens with the check on
-- carries the digest of its own content.
use go_steam.Base.{
  bytes_equal, bytes_equal_refl, bytes_equal_sound, ℕ, ◌+◌, ◌-◌, ◌*◌, ◌/◌, ◌%◌, ◌≤◌, ◌<◌, Bool,
  true, false, ◌||◌, not, Option, some, ◌++◌, ◌≡◌, ◌∙◌, Bytes, length, take, drop, length-append,
  length-take, length-drop, take-append, drop-append, All, IsByte, All-append, ltb, ◌==◌, arith,
}
use go_steam.Base.Results.{ok, guard, ◌>>◌}
use go_steam.Crypto.Primitives.{Primitives, block_size, hmac_mismatch}
use go_steam.Crypto.Pkcs7.{
  pkcs7_pad, pkcs7_unpad, pkcs7_unpad-pkcs7_pad, length-pkcs7_pad, pkcs7_pad-IsByte,
}
use go_steam.Crypto.Cbc.{
  cbc_encrypt, cbc_decrypt, cbc_decrypt-cbc_encrypt, length-cbc_encrypt, All-take,
}
use go_steam.Crypto.Symmetric.{
  sealed, partial_hmac, symmetric_encrypt, symmetric_encrypt_with_hmac_iv, symmetric_decrypt,
  unpad_and_check,
}

module _ (prim : Primitives) where
  open prim use {
    encrypt_block, decrypt_block, hmac_sha1, length-encrypt_block, decrypt_block-encrypt_block,
    length-hmac_sha1, hmac_sha1-IsByte,
  }

  -- The encrypted text has the vector's block, the input, and 1 to 16 bytes of padding.
  pub length-sealed :
      (input key iv : Bytes)
      → length (sealed prim input key iv) ≡ 16 + (length input + (16 - length input % 16))
  unfolding sealed
  length-sealed input key iv =
      let padded = pkcs7_pad input block_size in
      omega (
        arith,
        length-append (encrypt_block key iv) (cbc_encrypt prim key (length padded / 16) iv padded),
        length-encrypt_block key iv,
        length-cbc_encrypt prim key (length padded / 16) iv padded,
        length-pkcs7_pad input,
      )

  -- The number of blocks, and the ciphertext behind the vector's block.
  abbrev blocks : Bytes → ℕ
  blocks input = length (pkcs7_pad input block_size) / block_size

  abbrev body : Bytes → Bytes → Bytes → Bytes
  body input key iv = cbc_encrypt prim key (blocks input) iv (pkcs7_pad input block_size)

  sealed_parts :
      (input key iv : Bytes)
      → (take 16 (sealed prim input key iv) ≡ encrypt_block key iv)
        × (drop 16 (sealed prim input key iv) ≡ body input key iv)
  unfolding sealed
  sealed_parts input key iv = (
    take-append 16 (encrypt_block key iv) (body input key iv) (length-encrypt_block key iv),
    drop-append 16 (encrypt_block key iv) (body input key iv) (length-encrypt_block key iv),
  )

  padded_blocks : (input : Bytes) → length (pkcs7_pad input block_size) ≡ blocks input * 16
  padded_blocks input = omega (arith, length-pkcs7_pad input)

  body_opens :
      (input key iv : Bytes)
      → length iv ≡ 16
      → All IsByte input
      → All IsByte iv
      → pkcs7_unpad
          (cbc_decrypt prim key (length (body input key iv) / block_size) iv (body input key iv))
          block_size
        ≡ ok input
  body_opens input key iv hv bytes bv =
      let n = length-cbc_encrypt prim key (blocks input) iv (pkcs7_pad input block_size) in
      let count : length (body input key iv) / block_size ≡ blocks input = omega (arith, n) in
      let opened =
        cbc_decrypt-cbc_encrypt prim key (blocks input) iv (pkcs7_pad input block_size)
          (padded_blocks input) hv (pkcs7_pad-IsByte input bytes) bv in
      rw (count, opened) (pkcs7_unpad-pkcs7_pad input)

  -- Decrypting what was sealed with a vector of 16 bytes gives the input back, if the check is off
  -- or the vector carries the digest of the input.
  symmetric_decrypt-sealed :
      (input key iv : Bytes) (check : Bool)
      → length key ≡ 32
      → length iv ≡ 16
      → All IsByte input
      → All IsByte iv
      → symmetric_decrypt prim (sealed prim input key iv) key check ≡ (
          guard
            (not check || bytes_equal (take 13 iv) (partial_hmac prim key (drop 13 iv) input))
            hmac_mismatch
          >> ok input)
  unfolding symmetric_decrypt unpad_and_check
  symmetric_decrypt-sealed input key iv check hk hv bytes bv =
      let (head_, tail_) = sealed_parts input key iv in
      let n = length-cbc_encrypt prim key (blocks input) iv (pkcs7_pad input block_size) in
      let long : ltb (length (sealed prim input key iv)) 16 ≡ false =
        ground (arith, length-sealed input key iv) in
      let whole : (length (body input key iv) % 16 == 0) ≡ true = ground (arith, n) in
      rw (
        long,
        hk,
        head_,
        tail_,
        whole,
        decrypt_block-encrypt_block key iv hv bv,
        body_opens input key iv hv bytes bv,
      )

  -- An initialisation vector of 16 bytes opens again, and the input comes back, with the check off.
  pub symmetric_decrypt-symmetric_encrypt :
      (rand : ℕ → Option Bytes) (input key iv : Bytes)
      → 0 < length input
      → length key ≡ 32
      → length iv ≡ 16
      → All IsByte input
      → All IsByte iv
      → (sent : Bytes) × (symmetric_encrypt prim rand input key (some iv) ≡ ok sent)
        × (symmetric_decrypt prim sent key false ≡ ok input)
  unfolding symmetric_encrypt
  symmetric_decrypt-symmetric_encrypt rand input key iv p hk hv bytes bv = (
    sealed prim input key iv,
    ground arith,
    symmetric_decrypt-sealed input key iv false hk hv bytes bv,
  )

  partial_vector : Bytes → Bytes → Bytes → Bytes
  partial_vector key random input = partial_hmac prim key random input ++ random

  partial_vector_parts :
      (key random input : Bytes)
      → length random ≡ 3
      → All IsByte random
      → (length (partial_vector key random input) ≡ 16)
        × (take 13 (partial_vector key random input) ≡ partial_hmac prim key random input)
        × (drop 13 (partial_vector key random input) ≡ random)
        × All IsByte (partial_vector key random input)
  unfolding partial_vector partial_hmac
  partial_vector_parts key random input h br =
      let digest = hmac_sha1 (take 16 key) (random ++ input) in
      let thirteen : length (take 13 digest) ≡ 13 =
        omega (arith, length-take 13 digest, length-hmac_sha1 (take 16 key) (random ++ input)) in
      (
        omega (arith, length-append (take 13 digest) random, thirteen, h),
        take-append 13 (take 13 digest) random thirteen,
        drop-append 13 (take 13 digest) random thirteen,
        All-append IsByte (take 13 digest) random
            (All-take 13 digest (hmac_sha1-IsByte (take 16 key) (random ++ input))) br,
      )

  -- With a key of 32 bytes and three random bytes at hand, every input that is not empty is
  -- encrypted, and decrypting with the digest checked gives it back.
  pub symmetric_decrypt-symmetric_encrypt_with_hmac_iv :
      (rand : ℕ → Option Bytes) (input key random : Bytes)
      → rand 3 ≡ some random
      → length random ≡ 3
      → All IsByte random
      → 0 < length input
      → All IsByte input
      → length key ≡ 32
      → (sent : Bytes) × (symmetric_encrypt_with_hmac_iv prim rand input key ≡ ok sent)
        × (length sent ≡ 16 + (length input + (16 - length input % 16)))
        × (symmetric_decrypt prim sent key true ≡ ok input)
  unfolding symmetric_encrypt_with_hmac_iv symmetric_encrypt partial_vector
  symmetric_decrypt-symmetric_encrypt_with_hmac_iv rand input key random hr h3 br p bytes hk =
      let iv = partial_vector key random input in
      let (sixteen, front, back, bv) = partial_vector_parts key random input h3 br in
      (
        sealed prim input key iv,
        ground (arith, sixteen),
        length-sealed input key iv,
        symmetric_decrypt-sealed input key iv true hk sixteen bytes bv
            ∙ rw (front, back, bytes_equal_refl (partial_hmac prim key random input)),
      )

  checked_digest :
      (key iv padded plaintext : Bytes)
      → unpad_and_check prim key true iv padded ≡ ok plaintext
      → take 13 iv ≡ partial_hmac prim key (drop 13 iv) plaintext
  unfolding unpad_and_check
  checked_digest key iv padded plaintext h =
      let digest = partial_hmac prim key (drop 13 iv) plaintext in
      ground (arith, bytes_equal_sound (take 13 iv) digest)

  -- Whatever is decrypted with the check on came with a vector whose first 13 bytes are the digest
  -- of its last 3 bytes and the plaintext, under the first 16 bytes of a key of 32.
  pub symmetric_decrypt_authentic :
      (input key plaintext : Bytes)
      → symmetric_decrypt prim input key true ≡ ok plaintext
      → (16 ≤ length input)
        × (length input % 16 ≡ 0)
        × (length key ≡ 32)
        × (take 13 (decrypt_block key (take 16 input))
            ≡ partial_hmac prim key (drop 13 (decrypt_block key (take 16 input))) plaintext)
  unfolding symmetric_decrypt
  symmetric_decrypt_authentic input key plaintext h =
      let iv = decrypt_block key (take 16 input) in
      let padded = cbc_decrypt prim key (length (drop 16 input) / 16) iv (drop 16 input) in
      ground (arith, length-drop 16 input, checked_digest key iv padded plaintext)
