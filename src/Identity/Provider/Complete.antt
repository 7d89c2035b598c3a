-- ===== src/Identity/Provider/Complete.antt =====
-- When SubmitSteamGuardCode returns a new identity.
use go_steam.Base.{ℕ, ◌<◌, Option, none, some, Bytes, ◌≡◌, refl}
use go_steam.Base.Results.{Result, ok}
use go_steam.Base.Effects.{Call, and_then}
use go_steam.Api.Params.{PollResponse}
use go_steam.Api.Transport.{Transport}
use go_steam.Api.Services.{Decoders}
use go_steam.Identity.Pick.{pick_code_type}
use go_steam.Identity.Session.{Identity, AuthSession, IdentityError, Outside}
use go_steam.Identity.Poll.Laws.{Issued, poll_loop_iff}
use go_steam.Identity.Provider.{
  Provider, keep_provider, on_world, cached_or, serve_cached, keep_identity, stamp_identity,
  issue_identity, await_identity, submit_code, submit_as, submit_steam_guard_code,
}

module _ {W Modulus : Type 0} (transport : Transport W) (decoders : Decoders)
    (outside : Outside W Modulus) where
  -- A result with an identity of the session and the tokens of the status, which the provider keeps.
  abbrev pub Issues :
      AuthSession
      → PollResponse
      → Provider
      → Result IdentityError Identity × (Provider × W)
      → Type 0
  Issues session status p r =
      (i : Identity) × (v : W) × (r ≡ (ok i, (record p { identity = some i }, v)))
      × (i.steam_id ≡ session.steam_id)
      × (i.access_token ≡ status.access_token)
      × (i.refresh_token ≡ status.refresh_token)

  issue_identity-Issues :
      (session : AuthSession) (status : PollResponse) (p : Provider) (w : W)
      → Issues session status p (issue_identity transport decoders outside session status (p, w))
  unfolding issue_identity stamp_identity keep_identity
  issue_identity-Issues session status p w = (_, _, refl, refl, refl, refl)

  await_identity-Issues :
      (rounds n : ℕ) (session : AuthSession) (status : PollResponse) (p : Provider) (w w' : W)
      → Issued transport decoders outside session n w status w'
      → n < rounds
      → Issues session status p (await_identity transport decoders outside rounds session (p, w))
  unfolding await_identity on_world keep_provider and_then
  await_identity-Issues rounds n session status p w w' issued enough =
      let polled =
        (poll_loop_iff transport decoders outside session rounds w w' status).1
          (n, enough, issued) in
      rw (polled) (issue_identity-Issues session status p w')

  cached_or-none :
      (fetch : Call IdentityError (Provider × W) Identity) (p : Provider) (o : Option Identity)
      (w : W)
      → o ≡ none
      → cached_or transport decoders outside fetch p o w ≡ fetch (p, w)
  unfolding cached_or
  cached_or-none fetch p o w h = rw (h) refl

  -- A provider without an identity, whose session accepts a code: if Steam takes the code and then
  -- issues a refresh token before the rounds are used up, `SubmitSteamGuardCode` returns the identity
  -- with that token, and the provider keeps it.
  pub submit_steam_guard_code-Issues :
      (rounds n code_type : ℕ) (session : AuthSession) (code : Bytes) (status : PollResponse)
      (p : Provider) (w w1 w2 : W)
      → p.identity ≡ none
      → pick_code_type session.allowed_confirmations ≡ some code_type
      → submit_code transport decoders outside session code code_type w ≡ (ok tt, w1)
      → Issued transport decoders outside session n w1 status w2
      → n < rounds
      → Issues session status p
          (submit_steam_guard_code transport decoders outside rounds (some session) code (p, w))
  unfolding submit_steam_guard_code submit_as serve_cached on_world keep_provider and_then
  submit_steam_guard_code-Issues rounds n code_type session code status p w w1 w2 fresh picked taken
        issued enough =
      rw (picked, cached_or-none _ p p.identity w fresh, taken)
        (await_identity-Issues rounds n session status p w1 w2 issued enough)
