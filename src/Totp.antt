-- ===== src/Totp.antt =====
-- The package totp: the authentication code of an account at a time, and the id of a device
-- (totp/authentication_code.go, totp/device_id.go). HMAC-SHA1, SHA-1, base64 and hex are arguments.
pub mod Code
mod Tests
use go_steam.Base.{
  ℕ, zero, suc, ◌+◌, ◌-◌, ◌*◌, ◌/◌, ◌%◌, ◌^◌, Bool, Option, none, some, [], ◌∷◌, ◌++◌, Bytes, codes,
  length, take, drop, get_or, ltb, if◌then◌else◌,
}
use go_steam.Base.Binary.{be_value}
use go_steam.Base.Results.{Result, ok, err, or_err, guard, ◌>>=◌, ◌>>◌}
use Prim.Native.Nat.{bit_and}

pub data TotpError : Type 0 where
  secret_invalid checksum_short : TotpError

-- `binary.Write(buffer, binary.BigEndian, v)` for an unsigned `v` of `n` bytes, in front of `acc`.
be_bytes_onto : ℕ → ℕ → Bytes → Bytes
be_bytes_onto zero v acc = acc
be_bytes_onto (suc n) v acc = be_bytes_onto n (v / 256) ((v % 256) ∷ acc)

pub be_bytes : ℕ → ℕ → Bytes
be_bytes n v = be_bytes_onto n v []

-- Four zeros and the number of the time step of 30 seconds.
step_message : ℕ → Bytes
step_message unix = be_bytes 4 0 ++ be_bytes 4 (unix / 30 % 2 ^ 32)

abbrev pub char_set : Bytes
char_set = codes "23456789BCDFGHJKMNPQRTVWXY"

-- The loop over the characters of the code.
code_chars : ℕ → ℕ → Bytes
code_chars zero binary_code = []
code_chars (suc n) binary_code =
    get_or char_set (binary_code % length char_set) 0 ∷ code_chars n (binary_code / length char_set)

-- The lower four bits of the last byte.
dynamic_offset : Bytes → ℕ
dynamic_offset checksum = bit_and (get_or checksum (length checksum - 1) 0) 0xf

-- The code that a checksum gives.
code_of_checksum : Bytes → Result TotpError Bytes
code_of_checksum checksum =
    let offset = dynamic_offset checksum in
    if ltb (length checksum) (offset + 4)
    then err checksum_short
    else ok (code_chars 5 (bit_and (be_value 0 (take 4 (drop offset checksum))) 0x7fffffff))

pub create_authentication_code :
    (Bytes → Option Bytes) → (Bytes → Bytes → Bytes) → Bytes → ℕ → Result TotpError Bytes
create_authentication_code decode_base64 hmac_sha1 shared_secret unix = do
  secret ← or_err (decode_base64 shared_secret) secret_invalid
  code_of_checksum (hmac_sha1 secret (step_message unix))

-- `CreateDeviceID`, with the hexadecimal digest of a text.
create_device_id : (Bytes → Bytes) → Bytes → Bytes
create_device_id hex_sha1 steam_id_64 =
    let hash = hex_sha1 steam_id_64 in
    codes "android:"
    ++ (take 8 hash
        ++ (codes "-"
            ++ (take 4 (drop 8 hash)
                ++ (codes "-"
                    ++ (take 4 (drop 12 hash)
                        ++ (codes "-"
                            ++ (take 4 (drop 16 hash)
                                ++ (codes "-" ++ take 12 (drop 20 hash)))))))))
