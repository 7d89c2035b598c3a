-- ===== src/Example/Login.antt =====
-- `runFullLogin`, the start of `main` and `handleEvent` of examples/steam-library-example/main.go.
-- What is printed is left out.
pub mod Laws
pub mod Simple
use go_steam.Base.{
  ℕ, Bool, true, false, not, Option, none, some, [], Bytes, List, length, ◌==◌, if◌then◌else◌,
}
use go_steam.Base.Results.{Result, ok, err, wrap_err}
use go_steam.Base.Effects.{Call, ◌>>=◌, ◌>>◌, pure, fail, lift, wrap_call, wrap_result}
use go_steam.SteamId.Parse.{trim_space}
use go_steam.Totp.{create_authentication_code}
use go_steam.Api.Transport.{Transport}
use go_steam.Api.Services.{Decoders}
use go_steam.Protocol.State.{connected, logged_on}
use go_steam.Identity.Session.{Identity, AuthSession, Credentials, Outside, no_confirmation_type}
use go_steam.Client.{Client, ClientError, ClientEvent, forwarded, identity_error}
use go_steam.Client.Auth.{begin_auth_session, submit_steam_guard_code, wait_for_confirmation}
use go_steam.Client.Logon.{LogonBody, logon}
use go_steam.Protocol.OverTcp.{Socket}
use go_steam.Protocol.Handlers as Handlers
use go_steam.Example.{
  SavedSession, LineError, end_of_input, input_broken, ExampleError, client_error, code_failed,
  needs_external_confirmation, input_failed, input_fatal, password_failed, Host, ExampleCall,
}
use go_steam.Example.Saved.{restore_session, save_session}
use go_steam.Example.Guard.{resolve_steam_guard_code, secret_code}

-- A line that `prompt` read; any error ends the program.
prompted :
    {W : Type 0}
    → Client
    → (Bytes × Option LineError) × W
    → Result ExampleError Bytes × (Client × W)
prompted c ((line, some e), w) = (err input_fatal, (c, w))
prompted c ((line, none), w) = (ok (trim_space line), (c, w))

-- The line that `promptPassword` read without a terminal.
typed_password :
    {W : Type 0}
    → Client
    → (Bytes × Option LineError) × W
    → Result ExampleError Bytes × (Client × W)
typed_password c ((line, some input_broken), w) = (err password_failed, (c, w))
typed_password c ((line, some end_of_input), w) = (ok (trim_space line), (c, w))
typed_password c ((line, none), w) = (ok (trim_space line), (c, w))

hidden_password :
    {W : Type 0} → Client → Option Bytes × W → Result ExampleError Bytes × (Client × W)
hidden_password c (none, w) = (err password_failed, (c, w))
hidden_password c (some s, w) = (ok s, (c, w))

-- `errors.Is(err, errNeedsExternalConfirmation)`
is_external : ExampleError → Bool
is_external needs_external_confirmation = true
is_external _ = false

-- A call of which only the effect matters, since its error is printed.
printed :
    {W A : Type 0}
    → Result ExampleError A × (Client × W)
    → Result ExampleError (Unit {0}) × (Client × W)
printed (r, s) = (ok tt, s)

module _ {W Modulus : Type 0} (host : Host W) (transport : Transport W) (decoders : Decoders)
    (outside : Outside W Modulus) (ready : ℕ → Bool) where
  prompt : ExampleCall W Bytes
  prompt (c, w) = prompted c (host.read_line w)

  prompt_password : ExampleCall W Bytes
  prompt_password (c, w) =
      if not host.is_terminal
      then typed_password c (host.read_line w)
      else hidden_password c (host.read_password w)

  submit : ℕ → AuthSession → Bytes → ExampleCall W (Unit {0})
  submit rounds session code = do
    _ ←
        wrap_call client_error
          (submit_steam_guard_code transport decoders outside ready rounds (some session) code)
    pure tt

  wait : ℕ → AuthSession → ExampleCall W (Unit {0})
  wait rounds session = do
    _ ←
        wrap_call client_error
          (wait_for_confirmation transport decoders outside ready rounds (some session))
    pure tt

  -- The switch on what `resolveSteamGuardCode` returned.
  finish_login :
      ℕ
      → AuthSession
      → Result ExampleError Bytes × (Client × W)
      → Result ExampleError (Unit {0}) × (Client × W)
  finish_login rounds session (ok code, s) = submit rounds session code s
  finish_login rounds session (err e, s) =
      if is_external e then wait rounds session s else (err e, s)

  second_half : ℕ → Bytes → AuthSession → ExampleCall W (Unit {0})
  second_half rounds shared_secret session s =
      finish_login rounds session
        (resolve_steam_guard_code host outside shared_secret session.allowed_confirmations s)

  pub run_full_login : ℕ → Bytes → Bytes → Bytes → ExampleCall W (Unit {0})
  run_full_login rounds username password shared_secret = do
    name ← if length username == 0 then prompt else pure username
    word ← if length password == 0 then prompt_password else pure password
    session ← wrap_call client_error (
        begin_auth_session transport decoders outside ready
          (some (record { account_name = name; password = word; shared_secret = shared_secret })))
    second_half rounds shared_secret session

  -- `main` up to the connection: the user name that it goes on with.
  restored_or :
      ExampleCall W Bytes
      → Bytes
      → Result ExampleError SavedSession × (Client × W)
      → Result ExampleError Bytes × (Client × W)
  restored_or login username (ok s, v) =
      (ok (if length username == 0 then s.username else username), v)
  restored_or login username (err e, v) = login v

  pub sign_in : ℕ → Bytes → Bytes → Bytes → Bytes → ExampleCall W Bytes
  sign_in rounds path username password shared_secret s =
      restored_or (run_full_login rounds username password shared_secret >> pure username) username
        (restore_session host transport decoders outside ready path s)

  module _ (out : Handlers.Outside Socket) (marshal_logon : LogonBody → Option Bytes) where
    -- The session is logged on when there is a connection, and saved when it is logged on.
    pub handle_event : Bytes → Bytes → ClientEvent → ExampleCall W (Unit {0})
    handle_event path username (forwarded connected) =
        λ s. printed (wrap_call client_error (logon ready out marshal_logon) s)
    handle_event path username (forwarded (logged_on steam_id session_id)) =
        λ s. printed (save_session host path username s)
    handle_event path username _ = pure tt
