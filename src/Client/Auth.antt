-- ===== src/Client/Auth.antt =====
-- The first and the second half of the login, and SetIdentity (client/client.go).
pub mod Laws
pub mod Done
use go_steam.Base.{ℕ, Bool, not, Option, none, some, Bytes, length, ◌==◌, if◌then◌else◌}
use go_steam.Base.Results.{Result, ok, err}
use go_steam.Base.Effects.{Call}
use go_steam.SteamId.{SteamId, is_valid}
use go_steam.Api.Transport.{Transport}
use go_steam.Api.Services.{Decoders}
use go_steam.Identity.Session.{
  Identity, AuthSession, Credentials, IdentityError, Outside, new_identity,
}
use go_steam.Identity.Provider.{Provider, new_provider}
use go_steam.Identity.Provider as IdentityProvider
use go_steam.Client.{
  Client, ClientCall, ClientError, credentials_nil, provider_missing, steam_id_invalid, token_empty,
  identity_error, challenge, offer,
}

module _ {W Modulus : Type 0} (transport : Transport W) (decoders : Decoders)
    (outside : Outside W Modulus) (ready : ℕ → Bool) where
  -- The provider that there is, or the one that is made of the credentials.
  provider_for : Option Provider → Credentials → Provider
  provider_for none credentials = new_provider credentials
  provider_for (some p) credentials = p

  begun :
      Client
      → Result IdentityError AuthSession × (Provider × W)
      → Result ClientError AuthSession × (Client × W)
  begun c (err e, (p, w)) = (err (identity_error e), (record c { auth_idp = some p }, w))
  begun c (ok session, (p, w)) =
      (ok session, (offer ready (challenge session) (record c { auth_idp = some p }), w))

  pub begin_auth_session : Option Credentials → ClientCall W AuthSession
  begin_auth_session none (c, w) = (err credentials_nil, (c, w))
  begin_auth_session (some credentials) (c, w) = begun c (
      IdentityProvider.begin_auth_session transport decoders outside
        (provider_for c.auth_idp credentials, w))

  -- The identity is kept if there is one.
  kept :
      Client
      → Result IdentityError Identity × (Provider × W)
      → Result ClientError Identity × (Client × W)
  kept c (err e, (p, w)) = (err (identity_error e), (record c { auth_idp = some p }, w))
  kept c (ok i, (p, w)) = (ok i, (record c { auth_idp = some p; auth_identity = some i }, w))

  -- `if c.authIDP == nil { return … }` before the second half.
  with_provider :
      Call IdentityError (Provider × W) Identity
      → Client
      → Option Provider
      → W
      → Result ClientError Identity × (Client × W)
  with_provider second c none w = (err provider_missing, (c, w))
  with_provider second c (some p) w = kept c (second (p, w))

  pub submit_steam_guard_code : ℕ → Option AuthSession → Bytes → ClientCall W Identity
  submit_steam_guard_code rounds session code (c, w) =
      with_provider
        (IdentityProvider.submit_steam_guard_code transport decoders outside rounds session code) c
        c.auth_idp w

  pub wait_for_confirmation : ℕ → Option AuthSession → ClientCall W Identity
  wait_for_confirmation rounds session (c, w) =
      with_provider
        (IdentityProvider.wait_for_confirmation transport decoders outside rounds session) c
        c.auth_idp w

  installed : Client → SteamId → Bytes → ℕ × W → Result ClientError Identity × (Client × W)
  installed c steam_id refresh_token (t, w) =
      let i = new_identity t steam_id refresh_token in
      (ok i, (record c { auth_identity = some i }, w))

  pub set_identity : SteamId → Bytes → ClientCall W Identity
  set_identity steam_id refresh_token (c, w) =
      if not (is_valid steam_id)
      then (err steam_id_invalid, (c, w))
      else if length refresh_token == 0
      then (err token_empty, (c, w))
      else installed c steam_id refresh_token (outside.now w)
