-- ===== src/Identity/Session.antt =====
-- The types of identity/credentials.go, NewIdentity, and beginning a session: beginSessionLocked,
-- encryptPassword and beginAuthSessionViaCredentials.
use go_steam.Base.{
  ℕ, ◌+◌, ◌-◌, ◌*◌, ◌^◌, Bool, false, Option, [], List, Bytes, codes, ltb, if◌then◌else◌,
}
use go_steam.Base.Results.{Result, or_err}
use go_steam.Base.Effects.{Call, ◌>>=◌, pure, lift, wrap_call}
use go_steam.SteamId.{SteamId}
use go_steam.Totp.{TotpError}
use go_steam.Api.Params.{BeginParameters, AllowedConfirmation, BeginResponse}
use go_steam.Api.Transport.{CallError, Transport}
use go_steam.Api.Services.{
  Decoders, begin_auth_session_via_credentials, get_password_rsa_public_key,
}

-- Times are in nanoseconds.
pub record Identity : Type 0 where
  pub steam_id : SteamId
  pub access_token : Bytes
  pub refresh_token : Bytes
  pub created_at : ℕ
  pub expires_at : ℕ

-- `time.Hour`
abbrev pub hour : ℕ
hour = 3600000000000

-- `NewIdentity`, at the time `now`.
unfoldable pub new_identity : ℕ → SteamId → Bytes → Identity
new_identity now steam_id refresh_token = record {
  steam_id = steam_id;
  access_token = [];
  refresh_token = refresh_token;
  created_at = now;
  expires_at = now + hour;
}

-- The interval is a duration, of 64 bits.
pub record AuthSession : Type 0 where
  pub client_id : ℕ
  pub request_id : Bytes
  pub steam_id : SteamId
  pub interval : ℕ
  pub allowed_confirmations : List AllowedConfirmation

pub record Credentials : Type 0 where
  pub account_name : Bytes
  pub password : Bytes
  pub shared_secret : Bytes

-- The errors, each with the error it wraps. `polls_exhausted` is the model's own: the rounds that a
-- run was given are used up.
pub data IdentityError : Type 0 where
  key_failed begin_failed time_failed update_failed poll_failed : CallError → IdentityError
  modulus_invalid exponent_invalid : Bytes → IdentityError
  code_failed : TotpError → IdentityError
  encryption_failed session_nil no_code_type no_confirmation_type secret_empty context_done
        polls_exhausted :
      IdentityError

-- What the package calls of the standard library, in a world `W`: the context, the clock, math/big,
-- strconv, crypto/rsa with its random source, base64 and HMAC. `done` and `wait` return true if the
-- context is done, at once or before the duration is over.
pub record Outside (W Modulus : Type 0) : Type 0 where
  pub done : W → Bool × W
  pub wait : ℕ → W → Bool × W
  pub now : W → ℕ × W
  pub parse_modulus : Bytes → Option Modulus
  pub parse_exponent : Bytes → Option ℕ
  pub encrypt : Modulus → ℕ → Bytes → W → Option Bytes × W
  pub encode_base64 : Bytes → Bytes
  pub decode_base64 : Bytes → Option Bytes
  pub hmac_sha1 : Bytes → Bytes → Bytes

-- `time.Duration(interval) * time.Second` for the 32 bits of an int32.
interval_of : ℕ → ℕ
interval_of interval =
    if ltb interval (2 ^ 31)
    then interval * 1000000000
    else 2 ^ 64 - (2 ^ 32 - interval) * 1000000000

abbrev begin_parameters : Bytes → Bytes → ℕ → BeginParameters
begin_parameters account_name encrypted_password timestamp = record {
  device_friendly_name = [];
  account_name = account_name;
  encrypted_password = encrypted_password;
  encryption_timestamp = timestamp;
  remember_login = false;
  platform_type = 1;
  persistence = 1;
  website_id = codes "Community";
  device_details = record {
    device_friendly_name = codes "go-steam";
    platform_type = 1;
    os_type = 0;
    gaming_device_type = 0;
    client_count = 0;
    machine_id = [];
  };
  guard_data = [];
  language = 0;
  qos_level = 4;
}

session_of : BeginResponse → AuthSession
session_of res = record {
  client_id = res.client_id;
  request_id = res.request_id;
  steam_id = res.steam_id;
  interval = interval_of res.interval;
  allowed_confirmations = res.allowed_confirmations;
}

or_failed : {W : Type 0} → IdentityError → Option Bytes × W → Result IdentityError Bytes × W
or_failed e (r, w) = (or_err r e, w)

module _ {W Modulus : Type 0} (transport : Transport W) (decoders : Decoders)
    (outside : Outside W Modulus) where
  open outside use {parse_modulus, parse_exponent, encrypt, encode_base64}

  -- The encrypted password with the key's timestamp.
  encrypt_password : Bytes → Bytes → Call IdentityError W (Bytes × ℕ)
  encrypt_password account_name password = do
    key ←
        wrap_call key_failed
          (get_password_rsa_public_key transport decoders (record { account_name = account_name }))
    modulus ← lift (or_err (parse_modulus key.public_key_mod) (modulus_invalid key.public_key_mod))
    exponent ←
        lift (or_err (parse_exponent key.public_key_exp) (exponent_invalid key.public_key_exp))
    encrypted ← λ w. or_failed encryption_failed (encrypt modulus exponent password w)
    pure (encode_base64 encrypted, key.timestamp)

  begin_via_credentials : Bytes → Bytes × ℕ → Call CallError W BeginResponse
  begin_via_credentials account_name (encrypted_password, timestamp) =
      begin_auth_session_via_credentials transport decoders
        (begin_parameters account_name encrypted_password timestamp)

  -- `beginSessionLocked`, and `BeginAuthSession` under its mutex.
  pub begin_session : Credentials → Call IdentityError W AuthSession
  begin_session c = do
    encrypted ← encrypt_password c.account_name c.password
    res ← wrap_call begin_failed (begin_via_credentials c.account_name encrypted)
    pure (session_of res)
