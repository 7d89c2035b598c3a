-- ===== src/Totp/Code.antt =====
-- What an authentication code is made of (totp/authentication_code.go).
use go_steam.Base.{
  ℕ, zero, suc, ◌+◌, ◌-◌, ◌/◌, ◌%◌, ◌<◌, ◌≡◌, refl, ap, false, Option, some, Bytes, length, get_or,
  take, drop, ltb, arith, All,
}
use go_steam.Base.Bits.{bit_and_mask}
use Prim.Native.Nat.{bit_and}
use go_steam.Base.Binary.{be_value}
use go_steam.Base.Results.{ok}
use go_steam.Totp.{
  char_set, code_chars, dynamic_offset, code_of_checksum, step_message, create_authentication_code,
}

-- A character of the set, by its place.
abbrev pub IsCodeChar : ℕ → Type 0
IsCodeChar c = (i : ℕ) × (i < 26) × (get_or char_set i 0 ≡ c)

code_chars-IsCodeChar : (n b : ℕ) → All IsCodeChar (code_chars n b)
unfolding code_chars
code_chars-IsCodeChar zero b = tt
code_chars-IsCodeChar (suc n) b = ((b % 26, omega arith, refl), code_chars-IsCodeChar n (b / 26))

length-code_chars : (n b : ℕ) → length (code_chars n b) ≡ n
unfolding code_chars
length-code_chars zero b = refl
length-code_chars (suc n) b = ap suc (length-code_chars n (b / 26))

dynamic_offset_lt : (checksum : Bytes) → dynamic_offset checksum < 16
unfolding dynamic_offset
dynamic_offset_lt checksum = omega (arith, bit_and_mask 4 (get_or checksum (length checksum - 1) 0))

-- With digests of 20 bytes and a secret that decodes, there is a code, of five characters of the set.
pub create_authentication_code-IsCodeChar :
    (decode_base64 : Bytes → Option Bytes) (hmac_sha1 : Bytes → Bytes → Bytes)
    (shared_secret secret : Bytes) (unix : ℕ)
    → ((key message : Bytes) → length (hmac_sha1 key message) ≡ 20)
    → decode_base64 shared_secret ≡ some secret
    → (code : Bytes) × (create_authentication_code decode_base64 hmac_sha1 shared_secret unix
        ≡ ok code)
      × (length code ≡ 5)
      × All IsCodeChar code
unfolding create_authentication_code code_of_checksum
create_authentication_code-IsCodeChar decode_base64 hmac_sha1 shared_secret secret unix h20 hs =
    let checksum = hmac_sha1 secret (step_message unix) in
    let low = dynamic_offset_lt checksum in
    let long : ltb (length checksum) (dynamic_offset checksum + 4) ≡ false =
      ground (arith, h20 secret (step_message unix)) in
    let code =
      code_chars 5
        (bit_and (be_value 0 (take 4 (drop (dynamic_offset checksum) checksum))) 0x7fffffff) in
    (code, rw (hs, long), length-code_chars 5 _, code_chars-IsCodeChar 5 _)
