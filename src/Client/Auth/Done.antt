-- ===== src/Client/Auth/Done.antt =====
-- What a call of the login leaves in the client if it succeeds (client/client.go).
use go_steam.Base.{
  ℕ, Bool, true, Bool-cases, Option, none, some, [], Bytes, empty-cases, length-nonempty, ◌≡◌, ◌≢◌,
  inl, inr, refl, sym, ap, ◌∙◌,
}
use go_steam.Base.Results.{Result, ok, err}
use go_steam.Base.Effects.{Call}
use go_steam.SteamId.{SteamId, is_valid}
use go_steam.Api.Transport.{Transport}
use go_steam.Api.Services.{Decoders}
use go_steam.Identity.Session.{Identity, AuthSession, IdentityError, Outside, new_identity}
use go_steam.Identity.Provider.{Provider}
use go_steam.Client.{Client, identity, known_identity}
use go_steam.Client.Auth.{
  kept, with_provider, submit_steam_guard_code, wait_for_confirmation, installed, set_identity,
}

module _ {W Modulus : Type 0} (transport : Transport W) (decoders : Decoders)
    (outside : Outside W Modulus) (ready : ℕ → Bool) where
  -- A second half that succeeds leaves its identity.
  with_provider-ok :
      (second : Call IdentityError (Provider × W) Identity) (c : Client) (o : Option Provider)
      (w : W) (i : Identity) (s : Client × W)
      → with_provider transport decoders outside ready second c o w ≡ (ok i, s)
      → s.0.auth_identity ≡ some i
  unfolding with_provider kept
  with_provider-ok second c none w i s h = cc
  with_provider-ok second c (some p) w i s h = kept-ok c (second (p, w)) i s h
    where
      kept-ok :
          (c : Client) (r : Result IdentityError Identity × (Provider × W)) (i : Identity)
          (s : Client × W)
          → kept transport decoders outside ready c r ≡ (ok i, s)
          → s.0.auth_identity ≡ some i
      kept-ok c (err e, (p, w)) i s h = cc
      kept-ok c (ok j, (p, w)) i s h =
          let one : j ≡ i = cc in sym (ap (λ x. x.1.0.auth_identity) h) ∙ ap some one

  pub submit_ok :
      (c : Client) (rounds : ℕ) (session : Option AuthSession) (code : Bytes) (w : W) (i : Identity)
      (s : Client × W)
      → submit_steam_guard_code transport decoders outside ready rounds session code (c, w)
        ≡ (ok i, s)
      → s.0.auth_identity ≡ some i
  unfolding submit_steam_guard_code
  submit_ok c rounds session code w i s h = with_provider-ok _ c c.auth_idp w i s h

  pub wait_ok :
      (c : Client) (rounds : ℕ) (session : Option AuthSession) (w : W) (i : Identity)
      (s : Client × W)
      → wait_for_confirmation transport decoders outside ready rounds session (c, w) ≡ (ok i, s)
      → s.0.auth_identity ≡ some i
  unfolding wait_for_confirmation
  wait_ok c rounds session w i s h = with_provider-ok _ c c.auth_idp w i s h

  pub set_identity_ok :
      (c : Client) (steam_id : SteamId) (token : Bytes) (w : W) (i : Identity) (s : Client × W)
      → set_identity transport decoders outside ready steam_id token (c, w) ≡ (ok i, s)
      → s.0.auth_identity ≡ some i
  unfolding set_identity installed
  set_identity_ok c steam_id token w i s h = elim (Bool-cases (is_valid steam_id)) [
    | inr bad ↦ let no_ = rw bad at h in cc
    | inl good ↦ elim (empty-cases token) [
      | inl (_, t) ↦ let no_ = rw (good, t) at h in cc
      | inr (full, t) ↦
          let yes = rw (good, t) at h in
          let one : new_identity (outside.now w).0 steam_id token ≡ i = cc in
          sym (ap (λ x. x.1.0.auth_identity) yes) ∙ ap some one
    ]
  ]

  -- An identity that can log on is installed.
  pub set_identity_installed :
      (c : Client) (steam_id : SteamId) (token : Bytes) (w : W)
      → is_valid steam_id ≡ true
      → token ≢ []
      → let now = outside.now w in
        let i = new_identity now.0 steam_id token in
        set_identity transport decoders outside ready steam_id token (c, w)
        ≡ (ok i, (record c { auth_identity = some i }, now.1))
  unfolding set_identity installed
  set_identity_installed c steam_id token w valid full = rw (valid, length-nonempty token full) refl

-- An identity that is known is served.
pub identity_known :
    {W : Type 0} (c : Client) (i : Identity) (w : W)
    → c.auth_identity ≡ some i
    → identity (c, w) ≡ (ok i, (c, w))
unfolding identity known_identity
identity_known c i w h = rw h refl
