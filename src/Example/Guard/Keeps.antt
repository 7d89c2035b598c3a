-- ===== src/Example/Guard/Keeps.antt =====
-- `resolveSteamGuardCode` leaves the client alone.
use go_steam.Base.{not, ◌&&◌, Option, none, some, List, Bytes, length, ◌==◌, if◌then◌else◌}
use go_steam.Base.Effects.{fail, if_keeps}
use go_steam.Api.Params.{AllowedConfirmation}
use go_steam.Identity.Pick.{
  guard_email_code, guard_device_code, guard_device_confirmation, guard_machine_token,
}
use go_steam.Identity.Session.{Outside}
use go_steam.Client.{Client}
use go_steam.Example.{
  LineError, end_of_input, input_broken, secret_not_allowed, needs_external_confirmation,
  no_usable_method, Host,
}
use go_steam.Example.Guard.{
  confirmation_allowed, typed_code, read_code, code_at, secret_code, resolve_steam_guard_code,
}

module _ {W Modulus : Type 0} (host : Host W) (outside : Outside W Modulus)
    (P : Client → Type 0) where
  typed_code_keeps :
      (c : Client) (r : (Bytes × Option LineError) × W) → P c → P (typed_code c r).1.0
  unfolding typed_code
  typed_code_keeps c ((line, some input_broken), w) h = h
  typed_code_keeps c ((line, some end_of_input), w) h = h
  typed_code_keeps c ((line, none), w) h = h

  pub resolve_keeps :
      (shared_secret : Bytes) (allowed : List AllowedConfirmation) (s : Client × W)
      → P s.0
      → P (resolve_steam_guard_code host outside shared_secret allowed s).1.0
  unfolding resolve_steam_guard_code read_code secret_code code_at
  resolve_keeps shared_secret allowed s h =
      let kept = λ (v : Client × W). P v.0 in
      if_keeps kept (not (length shared_secret == 0))
        (if not (confirmation_allowed allowed guard_device_code)
          then fail secret_not_allowed
          else secret_code host outside shared_secret)
        _ s
        (if_keeps kept (not (confirmation_allowed allowed guard_device_code))
          (fail secret_not_allowed) (secret_code host outside shared_secret) s h h)
        (if_keeps kept (confirmation_allowed allowed guard_device_confirmation)
          (fail needs_external_confirmation) _ s h
          (if_keeps kept
            (not (confirmation_allowed allowed guard_email_code)
              && not (confirmation_allowed allowed guard_machine_token))
            (fail no_usable_method) (read_code host outside) s h
            (typed_code_keeps s.0 (host.read_line s.1) h)))
