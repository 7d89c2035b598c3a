-- ===== src/Identity/Provider.antt =====
-- The identity provider of identity/credentials.go with its methods: the identity is kept for later
-- calls. Each method holds the mutex while it runs, so that it is one step.
pub mod Settled
pub mod Laws
pub mod Invariant
pub mod Complete
use go_steam.Base.{
  ℕ, ◌+◌, Bool, not, Option, none, some, [], ◌∷◌, List, Bytes, length, ltb, ◌==◌, if◌then◌else◌,
}
use go_steam.Base.Results.{Result, ok, err, guard, wrap_err}
use go_steam.Base.Effects.{Call, ◌>>=◌, ◌>>◌, fail, lift, wrap_call}
use go_steam.Totp.{create_authentication_code}
use go_steam.Api.Params.{PollResponse}
use go_steam.Api.Transport.{Transport}
use go_steam.Api.Services.{Decoders, update_auth_session_with_steam_guard_code, query_time}
use go_steam.Identity.Pick.{guard_device_code, pick_code_type, pick_confirmation_type}
use go_steam.Identity.Session.{
  Identity, AuthSession, Credentials, IdentityError, session_nil, no_code_type,
  no_confirmation_type, secret_empty, time_failed, code_failed, update_failed, Outside, hour,
  begin_session,
}
use go_steam.Identity.Poll.{poll_loop}

-- `CredentialsIdentityProvider`, whose API is the transport below.
pub record Provider : Type 0 where
  pub credentials : Credentials
  pub identity : Option Identity

-- `NewCredentialsIdentityProvider` with an API.
unfoldable pub new_provider : Credentials → Provider
new_provider credentials = record { credentials = credentials; identity = none }

keep_provider :
    {W A : Type 0} → Provider → Result IdentityError A × W → Result IdentityError A × (Provider × W)
keep_provider p (r, w) = (r, (p, w))

-- A call that leaves the provider alone.
pub on_world : {W A : Type 0} → Call IdentityError W A → Call IdentityError (Provider × W) A
on_world m (p, w) = keep_provider p (m w)

module _ {W Modulus : Type 0} (transport : Transport W) (decoders : Decoders)
    (outside : Outside W Modulus) where
  open outside use {now, decode_base64, hmac_sha1}

  abbrev pub ProviderCall : Type 0 → Type 0
  ProviderCall A = Call IdentityError (Provider × W) A

  expired_or :
      ProviderCall Identity
      → Provider
      → Identity
      → ℕ × W
      → Result IdentityError Identity × (Provider × W)
  expired_or fetch p i (t, w) = if ltb t i.expires_at then (ok i, (p, w)) else fetch (p, w)

  cached_or :
      ProviderCall Identity
      → Provider
      → Option Identity
      → W
      → Result IdentityError Identity × (Provider × W)
  cached_or fetch p none w = fetch (p, w)
  cached_or fetch p (some i) w = expired_or fetch p i (now w)

  -- The kept identity while it has not expired, or the one that is fetched.
  pub serve_cached : ProviderCall Identity → ProviderCall Identity
  serve_cached fetch (p, w) = cached_or fetch p p.identity w

  -- The new identity, with the clock read twice.
  keep_identity :
      AuthSession
      → PollResponse
      → Provider
      → ℕ
      → ℕ × W
      → Result IdentityError Identity × (Provider × W)
  keep_identity session status p created (t, w) =
      let i : Identity = record {
        steam_id = session.steam_id;
        access_token = status.access_token;
        refresh_token = status.refresh_token;
        created_at = created;
        expires_at = t + hour;
      } in
      (ok i, (record p { identity = some i }, w))

  stamp_identity :
      AuthSession → PollResponse → Provider → ℕ × W → Result IdentityError Identity × (Provider × W)
  stamp_identity session status p (created, w) = keep_identity session status p created (now w)

  issue_identity : AuthSession → PollResponse → ProviderCall Identity
  issue_identity session status (p, w) = stamp_identity session status p (now w)

  -- The polls, and the identity that they give.
  pub await_identity : ℕ → AuthSession → ProviderCall Identity
  await_identity rounds session =
      on_world (poll_loop transport decoders outside session rounds) >>= issue_identity session

  unfoldable pub submit_code : AuthSession → Bytes → ℕ → Call IdentityError W (Unit {0})
  submit_code session code code_type = wrap_call update_failed (
      update_auth_session_with_steam_guard_code transport decoders (record {
        client_id = session.client_id;
        steam_id = session.steam_id;
        code_ = code;
        code_type = code_type;
      }))

  -- `BeginAuthSession`
  pub begin_auth_session : ProviderCall AuthSession
  begin_auth_session (p, w) =
      on_world (begin_session transport decoders outside p.credentials) (p, w)

  submit_as : ℕ → AuthSession → Bytes → Option ℕ → ProviderCall Identity
  submit_as rounds session code none = fail no_code_type
  submit_as rounds session code (some code_type) =
      serve_cached (on_world (submit_code session code code_type) >> await_identity rounds session)

  pub submit_steam_guard_code : ℕ → Option AuthSession → Bytes → ProviderCall Identity
  submit_steam_guard_code rounds none code = fail session_nil
  submit_steam_guard_code rounds (some session) code =
      submit_as rounds session code (pick_code_type session.allowed_confirmations)

  wait_as : ℕ → AuthSession → Option ℕ → ProviderCall Identity
  wait_as rounds session none = fail no_confirmation_type
  wait_as rounds session (some confirmation_type) = serve_cached (await_identity rounds session)

  pub wait_for_confirmation : ℕ → Option AuthSession → ProviderCall Identity
  wait_for_confirmation rounds none = fail session_nil
  wait_for_confirmation rounds (some session) =
      wait_as rounds session (pick_confirmation_type session.allowed_confirmations)

  -- The session is begun before the shared secret is looked at.
  log_in : ℕ → Credentials → ProviderCall Identity
  log_in rounds c = do
    session ← on_world (begin_session transport decoders outside c)
    lift (guard (not (length c.shared_secret == 0)) secret_empty)
    time ← on_world (wrap_call time_failed (query_time transport decoders))
    code ← lift (
        wrap_err code_failed
          (create_authentication_code decode_base64 hmac_sha1 c.shared_secret time))
    on_world (submit_code session code guard_device_code)
    await_identity rounds session

  -- `Identity`
  pub identity : ℕ → ProviderCall Identity
  identity rounds = serve_cached (λ (p, w). log_in rounds p.credentials (p, w))
