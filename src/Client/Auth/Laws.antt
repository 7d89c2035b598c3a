-- ===== src/Client/Auth/Laws.antt =====
-- What the login of a client keeps: its provider is genuine, and its identity can log on.
use go_steam.Base.{
  ℕ, Bool, true, Bool-cases, Option, none, some, [], Bytes, empty-cases, ◌≡◌, ◌≢◌, ◌⊎◌, inl, inr,
  refl, sym, ap,
}
use go_steam.Base.Results.{Result, ok, err}
use go_steam.SteamId.{SteamId, is_valid}
use go_steam.Api.Transport.{Transport}
use go_steam.Api.Services.{Decoders}
use go_steam.Identity.Session.{
  Identity, AuthSession, Credentials, IdentityError, Outside, new_identity,
}
use go_steam.Identity.Provider.{Provider, new_provider}
use go_steam.Identity.Provider as IdentityProvider
use go_steam.Identity.Provider.Settled.{Settled}
use go_steam.Identity.Provider.Laws.{LoggedIn}
use go_steam.Identity.Provider.Invariant.{
  IsGenuine, new, Reach-IsGenuine, Settled-IsGenuine, begin_auth_session_same, submit-Settled_login,
  wait-Settled_login,
}
use go_steam.Client.{Client, new_client, offer}
use go_steam.Client.Auth.{
  provider_for, begun, begin_auth_session, kept, with_provider, submit_steam_guard_code,
  wait_for_confirmation, installed, set_identity,
}

module _ {W Modulus : Type 0} (transport : Transport W) (decoders : Decoders)
    (outside : Outside W Modulus) (ready : ℕ → Bool) where
  -- An identity that Steam issued for a session, or that was set with a valid id and a token.
  abbrev pub CanLogOn : Identity → Type 0
  CanLogOn i =
      LoggedIn transport decoders outside i
      ⊎ ((is_valid i.steam_id ≡ true) × (i.refresh_token ≢ []))

  pub record IsLoggedIn (c : Client) : Type 0 where
    pub genuine :
        (p : Provider)
        → c.auth_idp ≡ some p
        → (credentials : Credentials) × IsGenuine transport decoders outside credentials p
    pub usable : (i : Identity) → c.auth_identity ≡ some i → CanLogOn i

  pub new_client-IsLoggedIn : (reconnect : Bool) → IsLoggedIn (new_client reconnect)
  unfolding new_client
  new_client-IsLoggedIn reconnect = record { genuine = λ p e. cc; usable = λ i e. cc }

  -- A client with such a provider and the identity of another.
  set_idp :
      (c : Client) (p : Provider)
      → IsLoggedIn c
      → (credentials : Credentials) × IsGenuine transport decoders outside credentials p
      → IsLoggedIn (record c { auth_idp = some p })
  set_idp c p h good = record {
    genuine = λ q e. let one : p ≡ q = cc in rw (sym one) good;
    usable = h.usable;
  }

  set_identity_of :
      (c : Client) (i : Identity)
      → IsLoggedIn c
      → CanLogOn i
      → IsLoggedIn (record c { auth_identity = some i })
  set_identity_of c i h good = record {
    genuine = h.genuine;
    usable = λ j e. let one : i ≡ j = cc in rw (sym one) good;
  }

  kept-IsLoggedIn :
      (credentials : Credentials) (c : Client) (p : Provider)
      (r : Result IdentityError Identity × (Provider × W))
      → IsLoggedIn c
      → IsGenuine transport decoders outside credentials p
      → Settled (LoggedIn transport decoders outside) p r
      → IsLoggedIn (kept transport decoders outside ready c r).1.0
  unfolding kept
  kept-IsLoggedIn credentials c p (err e, (q, w)) h good settled = set_idp c q h (
    credentials,
    Settled-IsGenuine transport decoders outside credentials p (err e, (q, w)) settled good,
  )
  kept-IsLoggedIn credentials c p (ok i, (q, w)) h good settled =
      let better =
        Settled-IsGenuine transport decoders outside credentials p (ok i, (q, w)) settled good in
      set_identity_of (record c { auth_idp = some q }) i (set_idp c q h (credentials, better))
        (inl (better.issued i (ap (λ (x : Provider). x.identity) settled.0)))

  begun-IsLoggedIn :
      (c : Client) (p : Provider) (r : Result IdentityError AuthSession × (Provider × W))
      → IsLoggedIn c
      → (credentials : Credentials) × IsGenuine transport decoders outside credentials p
      → r.1.0 ≡ p
      → IsLoggedIn (begun transport decoders outside ready c r).1.0
  unfolding begun offer
  begun-IsLoggedIn c p (err e, (q, w)) h good same = set_idp c q h (rw (same) good)
  begun-IsLoggedIn c p (ok session, (q, w)) h good same =
      let kept_idp = set_idp c q h (rw (same) good) in
      record { genuine = kept_idp.genuine; usable = kept_idp.usable }

  provider_for-IsGenuine :
      (o : Option Provider) (credentials : Credentials)
      → ((p : Provider)
          → o ≡ some p
          → (first : Credentials) × IsGenuine transport decoders outside first p)
      → (first : Credentials) × IsGenuine transport decoders outside first
          (provider_for transport decoders outside ready o credentials)
  unfolding provider_for
  provider_for-IsGenuine none credentials h =
      (credentials, Reach-IsGenuine transport decoders outside credentials _ new)
  provider_for-IsGenuine (some p) credentials h = h p refl

  pub begin_auth_session-IsLoggedIn :
      (c : Client) (credentials : Option Credentials) (w : W)
      → IsLoggedIn c
      → IsLoggedIn (begin_auth_session transport decoders outside ready credentials (c, w)).1.0
  unfolding begin_auth_session
  begin_auth_session-IsLoggedIn c none w h = h
  begin_auth_session-IsLoggedIn c (some credentials) w h =
      let p = provider_for transport decoders outside ready c.auth_idp credentials in
      begun-IsLoggedIn c p (IdentityProvider.begin_auth_session transport decoders outside (p, w)) h
        (provider_for-IsGenuine c.auth_idp credentials h.genuine)
        (begin_auth_session_same transport decoders outside p w)

  with_provider-IsLoggedIn :
      (second : Provider × W → Result IdentityError Identity × (Provider × W)) (c : Client)
      (o : Option Provider) (w : W)
      → c.auth_idp ≡ o
      → IsLoggedIn c
      → ((p : Provider) → Settled (LoggedIn transport decoders outside) p (second (p, w)))
      → IsLoggedIn (with_provider transport decoders outside ready second c o w).1.0
  unfolding with_provider
  with_provider-IsLoggedIn second c none w e h k = h
  with_provider-IsLoggedIn second c (some p) w e h k =
      let (credentials, good) = h.genuine p e in
      kept-IsLoggedIn credentials c p (second (p, w)) h good (k p)

  pub submit-IsLoggedIn :
      (c : Client) (rounds : ℕ) (session : Option AuthSession) (code : Bytes) (w : W)
      → IsLoggedIn c
      → IsLoggedIn
          (submit_steam_guard_code transport decoders outside ready rounds session code (c, w)).1.0
  unfolding submit_steam_guard_code
  submit-IsLoggedIn c rounds session code w h =
      with_provider-IsLoggedIn _ c c.auth_idp w refl h
        (λ p. submit-Settled_login transport decoders outside rounds session code p w)

  pub wait-IsLoggedIn :
      (c : Client) (rounds : ℕ) (session : Option AuthSession) (w : W)
      → IsLoggedIn c
      → IsLoggedIn
          (wait_for_confirmation transport decoders outside ready rounds session (c, w)).1.0
  unfolding wait_for_confirmation
  wait-IsLoggedIn c rounds session w h =
      with_provider-IsLoggedIn _ c c.auth_idp w refl h
        (λ p. wait-Settled_login transport decoders outside rounds session p w)

  pub set_identity-IsLoggedIn :
      (c : Client) (steam_id : SteamId) (token : Bytes) (w : W)
      → IsLoggedIn c
      → IsLoggedIn (set_identity transport decoders outside ready steam_id token (c, w)).1.0
  unfolding set_identity installed new_identity
  set_identity-IsLoggedIn c steam_id token w h = elim (Bool-cases (is_valid steam_id)) [
    | inr bad ↦ rw (bad) h
    | inl good ↦ elim (empty-cases token) [
      | inl (_, t) ↦ rw (good, t) h
      | inr (full, t) ↦ rw (good, t) (set_identity_of c _ h (inr (good, full)))
    ]
  ]
