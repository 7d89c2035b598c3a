-- ===== src/Example/Guard.antt =====
-- How examples/steam-library-example/main.go resolves a Steam Guard challenge:
-- `resolveSteamGuardCode` and `confirmationAllowed`.
pub mod Methods
pub mod Keeps
use go_steam.Base.{
  ℕ, ◌/◌, Bool, true, false, not, ◌&&◌, Option, none, some, [], ◌∷◌, List, Bytes, length, ◌==◌,
  if◌then◌else◌,
}
use go_steam.Base.Results.{Result, ok, err, wrap_err}
use go_steam.Base.Effects.{Call, ◌>>=◌, fail, lift}
use go_steam.SteamId.Parse.{trim_space}
use go_steam.Totp.{create_authentication_code}
use go_steam.Api.Params.{AllowedConfirmation}
use go_steam.Identity.Pick.{
  guard_email_code, guard_device_code, guard_device_confirmation, guard_machine_token,
}
use go_steam.Identity.Session.{Outside}
use go_steam.Client.{Client}
use go_steam.Example.{
  LineError, end_of_input, input_broken, ExampleError, code_failed, secret_not_allowed,
  needs_external_confirmation, no_usable_method, input_failed, Host, ExampleCall,
}

-- The loop over the confirmations.
pub confirmation_allowed : List AllowedConfirmation → ℕ → Bool
confirmation_allowed [] want = false
confirmation_allowed (c ∷ rest) want =
    if c.confirmation_type == want then true else confirmation_allowed rest want

-- A line that was read, the end of the input taken for the end of the line.
typed_code :
    {W : Type 0}
    → Client
    → (Bytes × Option LineError) × W
    → Result ExampleError Bytes × (Client × W)
typed_code c ((line, some input_broken), w) = (err input_failed, (c, w))
typed_code c ((line, some end_of_input), w) = (ok (trim_space line), (c, w))
typed_code c ((line, none), w) = (ok (trim_space line), (c, w))

module _ {W Modulus : Type 0} (host : Host W) (outside : Outside W Modulus) where
  read_code : ExampleCall W Bytes
  read_code (c, w) = typed_code c (host.read_line w)

  -- The time is in nanoseconds.
  code_at : Bytes → Client → ℕ × W → Result ExampleError Bytes × (Client × W)
  code_at shared_secret c (now, w) = (
    wrap_err code_failed (
        create_authentication_code outside.decode_base64 outside.hmac_sha1 shared_secret
          (now / 1000000000)),
    (c, w),
  )

  pub secret_code : Bytes → ExampleCall W Bytes
  secret_code shared_secret (c, w) = code_at shared_secret c (outside.now w)

  pub resolve_steam_guard_code : Bytes → List AllowedConfirmation → ExampleCall W Bytes
  resolve_steam_guard_code shared_secret allowed =
      let has_device_code = confirmation_allowed allowed guard_device_code in
      let has_device_confirmation = confirmation_allowed allowed guard_device_confirmation in
      if not (length shared_secret == 0)
      then if not has_device_code then fail secret_not_allowed else secret_code shared_secret
      else if has_device_confirmation
      then fail needs_external_confirmation
      else if not (confirmation_allowed allowed guard_email_code)
          && not (confirmation_allowed allowed guard_machine_token)
      then fail no_usable_method
      else read_code
