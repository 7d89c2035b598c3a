-- ===== src/Example/Login/Simple.antt =====
-- The login of examples/simple-client/main.go and examples/simple/main.go, and what they do with the
-- client's events. What is printed is left out.
use go_steam.Base.{
  ◌||◌, ℕ, Bool, true, false, not, Option, some, Bytes, length, ◌==◌, if◌then◌else◌,
}
use go_steam.Base.Results.{Result, ok, err}
use go_steam.Base.Effects.{◌>>=◌, ◌>>◌, pure, fail, wrap_call}
use go_steam.SteamId.Parse.{trim_space}
use go_steam.Api.Transport.{Transport}
use go_steam.Api.Services.{Decoders}
use go_steam.Protocol.State.{connected, logged_on}
use go_steam.Identity.Session.{Identity, AuthSession, Credentials, Outside, no_confirmation_type}
use go_steam.Client.{Client, ClientError, ClientEvent, forwarded, identity_error}
use go_steam.Client.Auth.{begin_auth_session, wait_for_confirmation}
use go_steam.Client.Logon.{LogonBody, logon}
use go_steam.Protocol.OverTcp.{Socket}
use go_steam.Protocol.Handlers as Handlers
use go_steam.Example.{LineError, ExampleError, environment_missing, client_error, Host, ExampleCall}
use go_steam.Example.Guard.{secret_code}
use go_steam.Example.Login.{printed, submit}

-- A line whose error is not looked at.
any_line :
    {W : Type 0}
    → Client
    → (Bytes × Option LineError) × W
    → Result ExampleError Bytes × (Client × W)
any_line c ((line, e), w) = (ok (trim_space line), (c, w))

-- Whether the error of the client is the one whose text the examples look for.
is_no_confirmation : ClientError → Bool
is_no_confirmation (identity_error no_confirmation_type) = true
is_no_confirmation _ = false

module _ {W Modulus : Type 0} (host : Host W) (transport : Transport W) (decoders : Decoders)
    (outside : Outside W Modulus) (ready : ℕ → Bool) where
  -- `authorize` of simple-client and `submitSteamGuardCode` of simple.
  or_typed :
      ℕ
      → AuthSession
      → Result ClientError Identity × (Client × W)
      → Result ExampleError (Unit {0}) × (Client × W)
  or_typed rounds session (ok _, s) = (ok tt, s)
  or_typed rounds session (err e, (c, w)) =
      if not (is_no_confirmation e)
      then (err (client_error e), (c, w))
      else ((λ (d, v). any_line d (host.read_line v))
            >>= submit host transport decoders outside ready rounds session)
          (c, w)

  pub authorize : ℕ → AuthSession → Bytes → ExampleCall W (Unit {0})
  authorize rounds session shared_secret =
      if not (length shared_secret == 0)
      then secret_code host outside shared_secret
        >>= submit host transport decoders outside ready rounds session
      else λ s.
          or_typed rounds session
            (wait_for_confirmation transport decoders outside ready rounds (some session) s)

  -- `main` of simple, up to the connection, with the account that it picked.
  pub simple_login : ℕ → Credentials → ExampleCall W (Unit {0})
  simple_login rounds account = do
    session ←
        wrap_call client_error (begin_auth_session transport decoders outside ready (some account))
    authorize rounds session account.shared_secret

  -- `main` of simple-client, up to the connection, with the three environment variables.
  pub simple_client_login : ℕ → Bytes → Bytes → Bytes → ExampleCall W (Unit {0})
  simple_client_login rounds username password shared_secret =
      if length username == 0 || length password == 0 then fail environment_missing else do
        session ← wrap_call client_error (
            begin_auth_session transport decoders outside ready (
              some (record {
                account_name = username;
                password = password;
                shared_secret = shared_secret;
              })))
        authorize rounds session shared_secret

  module _ (out : Handlers.Outside Socket) (marshal_logon : LogonBody → Option Bytes) where
    -- An event in the loop of simple: only a connection is acted upon.
    pub handle_simple : ClientEvent → ExampleCall W (Unit {0})
    handle_simple (forwarded connected) =
        λ s. printed (wrap_call client_error (logon ready out marshal_logon) s)
    handle_simple _ = pure tt

    -- An event in the loop of simple-client, and whether the loop goes on.
    pub handle_simple_client : ClientEvent → ExampleCall W Bool
    handle_simple_client (forwarded connected) = do
      (λ s. printed (wrap_call client_error (logon ready out marshal_logon) s))
      pure true
    handle_simple_client (forwarded (logged_on steam_id session_id)) = pure false
    handle_simple_client _ = pure true
