-- ===== src/Crypto/SessionKey.antt =====
-- crypto/generate_session_key.go and crypto/verify_signature.go. The random source, RSA and the
-- hashes are outside the repository: arguments.
use go_steam.Base.{
  bytes_equal, ℕ, Bool, true, false, ◌||◌, Option, none, some, Bytes, codes, length, ◌==◌,
  if◌then◌else◌,
}
use go_steam.Base.Results.{Result, ok, err, or_err, ◌>>=◌}

pub data KeyError : Type 0 where
  random_failed encrypt_failed : KeyError

-- `GenerateSessionKey`: a random key of 32 bytes, and the key encrypted with Steam's public key.
unfoldable pub generate_session_key :
    (ℕ → Option Bytes) → (Bytes → Option Bytes) → Result KeyError (Bytes × Bytes)
generate_session_key rand encrypt_oaep = do
  plain ← or_err (rand 32) random_failed
  encrypted ← or_err (encrypt_oaep plain) encrypt_failed
  ok (plain, encrypted)

-- The hash that an algorithm's name selects.
pub data Hash : Type 0 where
  sha1 sha256 : Hash

hash_of_algorithm : Bytes → Option Hash
hash_of_algorithm name =
    if length name == 0 || bytes_equal name (codes "RSA-SHA1")
    then some sha1
    else if bytes_equal name (codes "RSA-SHA256")
    then some sha256
    else none

pub data SignatureError : Type 0 where
  empty_data empty_signature unsupported_algorithm verify_failed : SignatureError

-- What `rsa.VerifyPKCS1v15` returns: no error, `rsa.ErrVerification`, or another error.
pub data Verdict : Type 0 where
  valid invalid broken : Verdict

-- `VerifySignature`, with the digest of a hash and the check of a digest against a signature.
verify_signature :
    (Hash → Bytes → Bytes)
    → (Hash → Bytes → Bytes → Verdict)
    → Bytes
    → Bytes
    → Bytes
    → Result SignatureError Bool
verify_signature digest verify algorithm data_ signature =
    if length data_ == 0
    then err empty_data
    else if length signature == 0
    then err empty_signature
    else do
      hash ← or_err (hash_of_algorithm algorithm) unsupported_algorithm
      elim (verify hash (digest hash data_) signature) [
        | valid ↦ ok true
        | invalid ↦ ok false
        | broken ↦ err verify_failed
      ]
