-- ===== src/Identity/Provider/Settled.antt =====
-- What a step of the identity provider's methods leaves, and how steps combine.
use go_steam.Base.{ℕ, Bool-cases, Option, none, some, ltb, ◌≡◌, ◌⊎◌, inl, inr, refl, ap}
use go_steam.Base.Results.{Result, ok, err}
use go_steam.Base.Effects.{Call, and_then, ◌>>=◌, lift}
use go_steam.Api.Params.{PollResponse}
use go_steam.Api.Transport.{Transport}
use go_steam.Api.Services.{Decoders}
use go_steam.Identity.Session.{Identity, AuthSession, IdentityError, Outside}
use go_steam.Identity.Poll.{poll_loop}
use go_steam.Identity.Poll.Laws.{Issued, poll_loop_iff}
use go_steam.Identity.Provider.{
  Provider, keep_provider, on_world, cached_or, expired_or, serve_cached, keep_identity,
  stamp_identity, issue_identity, await_identity,
}

-- What a method leaves: after an error the provider as it was; else the identity that it returns,
-- which is the one kept before or is `Good`.
abbrev pub Settled :
    {W : Type 0}
    → (Identity → Type 0)
    → Provider
    → Result IdentityError Identity × (Provider × W)
    → Type 0
Settled Good p (err e, (p', w)) = p' ≡ p
Settled Good p (ok i, (p', w)) =
    (p' ≡ record p { identity = some i }) × ((p.identity ≡ some i) ⊎ Good i)

module _ {W Modulus : Type 0} (transport : Transport W) (decoders : Decoders)
    (outside : Outside W Modulus) (Good : Identity → Type 0) where
  abbrev Fetch : Type 0 → Type 0
  Fetch A = Call IdentityError (Provider × W) A

  kept-Settled :
      {A : Type 0} (k : A → Fetch Identity) (p : Provider) (r : Result IdentityError A × W)
      → ((a : A) (w : W) → r ≡ (ok a, w) → Settled Good p (k a (p, w)))
      → Settled Good p (and_then (keep_provider p r) k)
  unfolding keep_provider and_then
  kept-Settled k p (ok a, w) h = h a w refl
  kept-Settled k p (err e, w) h = refl

  pub on_world-Settled :
      {A : Type 0} (m : Call IdentityError W A) (k : A → Fetch Identity) (p : Provider) (w : W)
      → ((a : A) (w' : W) → m w ≡ (ok a, w') → Settled Good p (k a (p, w')))
      → Settled Good p ((on_world m >>= k) (p, w))
  unfolding on_world
  on_world-Settled m k p w h = kept-Settled k p (m w) h

  pub lift-Settled :
      {A : Type 0} (r : Result IdentityError A) (k : A → Fetch Identity) (p : Provider) (w : W)
      → ((a : A) → Settled Good p (k a (p, w)))
      → Settled Good p ((lift r >>= k) (p, w))
  unfolding and_then
  lift-Settled (ok a) k p w h = h a
  lift-Settled (err e) k p w h = refl

  expired_or-Settled :
      (fetch : Fetch Identity) (p : Provider) (i : Identity) (now : ℕ × W)
      → p.identity ≡ some i
      → ((w : W) → Settled Good p (fetch (p, w)))
      → Settled Good p (expired_or transport decoders outside fetch p i now)
  unfolding expired_or
  expired_or-Settled fetch p i (t, w) kept h = elim (Bool-cases (ltb t i.expires_at)) [
    | inl fresh ↦
        rw (fresh) (ap (λ (o : Option Identity). record p { identity = o }) kept, inl kept)
    | inr expired ↦ rw (expired) (h w)
  ]

  cached_or-Settled :
      (fetch : Fetch Identity) (p : Provider) (o : Option Identity) (w : W)
      → p.identity ≡ o
      → ((w : W) → Settled Good p (fetch (p, w)))
      → Settled Good p (cached_or transport decoders outside fetch p o w)
  unfolding cached_or
  cached_or-Settled fetch p none w kept h = h w
  cached_or-Settled fetch p (some i) w kept h = expired_or-Settled fetch p i (outside.now w) kept h

  pub serve_cached-Settled :
      (fetch : Fetch Identity) (p : Provider) (w : W)
      → ((w : W) → Settled Good p (fetch (p, w)))
      → Settled Good p (serve_cached transport decoders outside fetch (p, w))
  unfolding serve_cached
  serve_cached-Settled fetch p w h = cached_or-Settled fetch p p.identity w refl h

-- An identity with the tokens of a status for the session, which a run of the loop ended with.
abbrev pub IssuedFor :
    {W Modulus : Type 0}
    → Transport W
    → Decoders
    → Outside W Modulus
    → AuthSession
    → W
    → Identity
    → Type 0
IssuedFor {W = W} transport decoders outside session w i =
    (n : ℕ) × (status : PollResponse) × (w' : W) × Issued transport decoders outside session n w
      status w'
    × (i.steam_id ≡ session.steam_id)
    × (i.access_token ≡ status.access_token)
    × (i.refresh_token ≡ status.refresh_token)

module _ {W Modulus : Type 0} (transport : Transport W) (decoders : Decoders)
    (outside : Outside W Modulus) where
  keep_identity-Settled :
      (Good : Identity → Type 0) (session : AuthSession) (status : PollResponse) (p : Provider)
      (created : ℕ) (now : ℕ × W)
      → ((i : Identity)
          → (i.steam_id ≡ session.steam_id)
          → (i.access_token ≡ status.access_token)
          → (i.refresh_token ≡ status.refresh_token)
          → Good i)
      → Settled Good p (keep_identity transport decoders outside session status p created now)
  unfolding keep_identity
  keep_identity-Settled Good session status p created (t, w) good =
      (refl, inr (good _ refl refl refl))

  issue_identity-Settled :
      (Good : Identity → Type 0) (session : AuthSession) (status : PollResponse) (p : Provider)
      (w : W)
      → ((i : Identity)
          → (i.steam_id ≡ session.steam_id)
          → (i.access_token ≡ status.access_token)
          → (i.refresh_token ≡ status.refresh_token)
          → Good i)
      → Settled Good p (issue_identity transport decoders outside session status (p, w))
  unfolding issue_identity stamp_identity
  issue_identity-Settled Good session status p w good =
      keep_identity-Settled Good session status p (outside.now w).0 (outside.now (outside.now w).1)
        good

  pub await_identity-Settled :
      (rounds : ℕ) (session : AuthSession) (p : Provider) (w : W)
      → Settled
          (IssuedFor transport decoders outside session w)
          p
          (await_identity transport decoders outside rounds session (p, w))
  unfolding await_identity
  await_identity-Settled rounds session p w =
      on_world-Settled transport decoders outside (IssuedFor transport decoders outside session w)
        (poll_loop transport decoders outside session rounds)
        (issue_identity transport decoders outside session) p w
        (λ status w' polled.
          let (to, _) = poll_loop_iff transport decoders outside session rounds w w' status in
          let (n, _, issued) = to polled in
          issue_identity-Settled (IssuedFor transport decoders outside session w) session status p
            w' (λ i steam_id access refresh. (n, status, w', issued, steam_id, access, refresh)))

  pub Settled-mono :
      (Good Better : Identity → Type 0) (p : Provider)
      (r : Result IdentityError Identity × (Provider × W))
      → ((i : Identity) → Better i → Good i)
      → Settled Better p r
      → Settled Good p r
  Settled-mono Good Better p (ok i, (p', w)) h (kept, inl old) = (kept, inl old)
  Settled-mono Good Better p (ok i, (p', w)) h (kept, inr better) = (kept, inr (h i better))
  Settled-mono Good Better p (err e, (p', w)) h same = same
