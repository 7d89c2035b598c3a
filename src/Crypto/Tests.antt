-- ===== src/Crypto/Tests.antt =====
-- The theorems on encryption, with stand-ins for AES and HMAC-SHA1 that keep what is promised of
-- them: a block is cut or filled to 16 bytes, and every digest is the same.
use go_steam.Base.{
  ℕ, zero, suc, ◌+◌, ◌-◌, ◌%◌, ◌≤◌, ◌≡◌, refl, ap, ◌∙◌, true, Option, some, [], ◌∷◌, Bytes, length,
  take, drop, replicate, arith, All, IsByte,
}
use go_steam.Base.Results.{ok}
use go_steam.Crypto.Primitives.{Primitives, block_size}
use go_steam.Crypto.Pkcs7.{pkcs7_pad, pkcs7_unpad-pkcs7_pad, pkcs7_unpad_sound}
use go_steam.Crypto.Symmetric.{symmetric_encrypt_with_hmac_iv, symmetric_decrypt, partial_hmac}
use go_steam.Crypto.Symmetric.RoundTrip.{
  symmetric_decrypt-symmetric_encrypt_with_hmac_iv, symmetric_decrypt_authentic,
}

-- The first `n` bytes, with zeros where there are none.
pub fill : ℕ → Bytes → Bytes
fill zero s = []
fill (suc n) [] = 0 ∷ fill n []
fill (suc n) (b ∷ s) = (b % 256) ∷ fill n s

pub length-fill : (n : ℕ) (s : Bytes) → length (fill n s) ≡ n
unfolding fill
length-fill zero s = refl
length-fill (suc n) [] = ap suc (length-fill n [])
length-fill (suc n) (b ∷ s) = ap suc (length-fill n s)

pub fill-IsByte : (n : ℕ) (s : Bytes) → All IsByte (fill n s)
unfolding fill
fill-IsByte zero s = tt
fill-IsByte (suc n) [] = (omega arith, fill-IsByte n [])
fill-IsByte (suc n) (b ∷ s) = (omega arith, fill-IsByte n s)

pub fill_same : (n : ℕ) (s : Bytes) → length s ≡ n → All IsByte s → fill n s ≡ s
unfolding fill
fill_same zero [] h bytes = refl
fill_same zero (b ∷ s) h bytes = absurd (omega arith)
fill_same (suc n) [] h bytes = absurd (omega arith)
fill_same (suc n) (b ∷ s) h (hb, hs) =
    let same : b % 256 ≡ b = omega arith in rw (same, fill_same n s (omega arith) hs)

abbrev pub test_primitives : Primitives
test_primitives = record {
  encrypt_block = λ key s. fill 16 s;
  decrypt_block = λ key s. fill 16 s;
  hmac_sha1 = λ key s. fill 20 key;
  length-encrypt_block = λ key s. length-fill 16 s;
  length-decrypt_block = λ key s. length-fill 16 s;
  encrypt_block-IsByte = λ key s. fill-IsByte 16 s;
  decrypt_block-encrypt_block =
      λ key s h bytes. ap (fill 16) (fill_same 16 s h bytes) ∙ fill_same 16 s h bytes;
  length-hmac_sha1 = λ key s. length-fill 20 key;
  hmac_sha1-IsByte = λ key s. fill-IsByte 20 key;
}

abbrev pub test_key : Bytes
test_key = replicate 32 7

pub key_length : length test_key ≡ 32
key_length = refl

abbrev pub test_rand : ℕ → Option Bytes
test_rand n = some (replicate n 5)

abbrev pub test_message : Bytes
test_message = 1 ∷ 2 ∷ 3 ∷ []

pub message_bytes : All IsByte test_message
message_bytes = (omega arith, (omega arith, (omega arith, tt)))

pub random_bytes : All IsByte (replicate 3 5)
random_bytes = (omega arith, (omega arith, (omega arith, tt)))

abbrev test_vector : Bytes
test_vector = fill 16 (9 ∷ [])

pkcs7_unpad_sound_example : pkcs7_pad test_message block_size ≡ pkcs7_pad test_message block_size
pkcs7_unpad_sound_example =
    pkcs7_unpad_sound (pkcs7_pad test_message block_size) test_message
      (pkcs7_unpad-pkcs7_pad test_message)

symmetric_decrypt-symmetric_encrypt_with_hmac_iv_example :
    (sent : Bytes) × (symmetric_encrypt_with_hmac_iv test_primitives test_rand test_message test_key
      ≡ ok sent)
    × (length sent ≡ 16 + (length test_message + (16 - length test_message % 16)))
    × (symmetric_decrypt test_primitives sent test_key true ≡ ok test_message)
symmetric_decrypt-symmetric_encrypt_with_hmac_iv_example =
    symmetric_decrypt-symmetric_encrypt_with_hmac_iv test_primitives test_rand test_message test_key
      (replicate 3 5) refl refl random_bytes (omega arith) message_bytes key_length

-- What is sent for the message.
abbrev test_sent :
    (sent : Bytes) × (symmetric_decrypt test_primitives sent test_key true ≡ ok test_message)
test_sent =
    let (sent, _, _, opened) =
      symmetric_decrypt-symmetric_encrypt_with_hmac_iv test_primitives test_rand test_message
        test_key (replicate 3 5) refl refl random_bytes (omega arith) message_bytes key_length in
    (sent, opened)

symmetric_decrypt_authentic_example :
    (16 ≤ length test_sent.0)
    × (length test_sent.0 % 16 ≡ 0)
    × (length test_key ≡ 32)
    × (take 13 (fill 16 (take 16 test_sent.0))
        ≡ partial_hmac test_primitives test_key
            (drop 13 (fill 16 (take 16 test_sent.0)))
            test_message)
symmetric_decrypt_authentic_example =
    symmetric_decrypt_authentic test_primitives test_sent.0 test_key test_message test_sent.1
