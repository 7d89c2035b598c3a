-- ===== src/Identity/Provider/Invariant.antt =====
-- What holds of an identity provider after any calls of its methods.
use go_steam.Base.{ℕ, Option, none, some, Bytes, ◌≡◌, inl, inr, refl, sym, ap, ◌∙◌}
use go_steam.Base.Results.{Result, ok, err}
use go_steam.Api.Transport.{Transport}
use go_steam.Api.Services.{Decoders}
use go_steam.Identity.Session.{Identity, AuthSession, Credentials, IdentityError, Outside}
use go_steam.Identity.Provider.{
  Provider, new_provider, keep_provider, on_world, begin_auth_session, submit_steam_guard_code,
  wait_for_confirmation, identity,
}
use go_steam.Identity.Provider.Settled.{Settled, Settled-mono}
use go_steam.Identity.Provider.Laws.{
  LoggedIn, SubmittedFor, ConfirmedFor, submit_steam_guard_code-Settled,
  wait_for_confirmation-Settled, identity-Settled,
}

module _ {W Modulus : Type 0} (transport : Transport W) (decoders : Decoders)
    (outside : Outside W Modulus) where
  -- The providers that calls of the methods lead to, each in a world of its own.
  pub data Reach (c : Credentials) : Provider → Type 0 where
    new : Reach c (new_provider c)
    begun :
        {p : Provider} (w : W)
        → Reach c p
        → Reach c (begin_auth_session transport decoders outside (p, w)).1.0
    submitted :
        {p : Provider} (rounds : ℕ) (session : Option AuthSession) (code : Bytes) (w : W)
        → Reach c p
        → Reach c
            (submit_steam_guard_code transport decoders outside rounds session code (p, w)).1.0
    confirmed :
        {p : Provider} (rounds : ℕ) (session : Option AuthSession) (w : W)
        → Reach c p
        → Reach c (wait_for_confirmation transport decoders outside rounds session (p, w)).1.0
    identified :
        {p : Provider} (rounds : ℕ) (w : W)
        → Reach c p
        → Reach c (identity transport decoders outside rounds (p, w)).1.0

  -- The credentials are the first ones, and the identity that is kept was issued by Steam for a session.
  pub record IsGenuine (c : Credentials) (p : Provider) : Type 0 where
    pub same_credentials : p.credentials ≡ c
    pub issued : (i : Identity) → p.identity ≡ some i → LoggedIn transport decoders outside i

  kept-IsGenuine :
      (c : Credentials) (p p' : Provider) (i : Identity)
      → p' ≡ record p { identity = some i }
      → p.credentials ≡ c
      → LoggedIn transport decoders outside i
      → IsGenuine c p'
  kept-IsGenuine c p p' i kept same good = record {
    same_credentials = ap (λ (q : Provider). q.credentials) kept ∙ same;
    issued = λ j e.
        let both : Path (Option Identity) (some i) (some j) =
          sym (ap (λ (q : Provider). q.identity) kept) ∙ e in
        let one : i ≡ j = cc in rw (sym one) good;
  }

  pub Settled-IsGenuine :
      (c : Credentials) (p : Provider) (r : Result IdentityError Identity × (Provider × W))
      → Settled (LoggedIn transport decoders outside) p r
      → IsGenuine c p
      → IsGenuine c r.1.0
  Settled-IsGenuine c p (ok i, (p', w)) (kept, inl old) h =
      kept-IsGenuine c p p' i kept h.same_credentials (h.issued i old)
  Settled-IsGenuine c p (ok i, (p', w)) (kept, inr good) h =
      kept-IsGenuine c p p' i kept h.same_credentials good
  Settled-IsGenuine c p (err e, (p', w)) same h = rw (same) h

  pub begin_auth_session_same :
      (p : Provider) (w : W) → (begin_auth_session transport decoders outside (p, w)).1.0 ≡ p
  unfolding begin_auth_session on_world keep_provider
  begin_auth_session_same p w = refl

  -- The two methods for a session that may be nil.
  pub submit-Settled_login :
      (rounds : ℕ) (session : Option AuthSession) (code : Bytes) (p : Provider) (w : W)
      → Settled
          (LoggedIn transport decoders outside)
          p
          (submit_steam_guard_code transport decoders outside rounds session code (p, w))
  unfolding submit_steam_guard_code
  submit-Settled_login rounds none code p w = refl
  submit-Settled_login rounds (some session) code p w =
      Settled-mono transport decoders outside _
        (SubmittedFor transport decoders outside session code) p _
        (λ i (code_type, w0, w1, picked, taken, issued). (session, w1, issued))
        (submit_steam_guard_code-Settled transport decoders outside rounds session code p w)

  pub wait-Settled_login :
      (rounds : ℕ) (session : Option AuthSession) (p : Provider) (w : W)
      → Settled
          (LoggedIn transport decoders outside)
          p
          (wait_for_confirmation transport decoders outside rounds session (p, w))
  unfolding wait_for_confirmation
  wait-Settled_login rounds none p w = refl
  wait-Settled_login rounds (some session) p w =
      Settled-mono transport decoders outside _ (ConfirmedFor transport decoders outside session) p
        _ (λ i (picked, (w0, issued)). (session, w0, issued))
        (wait_for_confirmation-Settled transport decoders outside rounds session p w)

  -- After any calls of the methods of a new provider, it has the credentials that it was made with,
  -- and the identity that it keeps, if any, was issued by Steam for a session: a poll of the session
  -- returned its tokens, and the refresh token is not empty.
  pub Reach-IsGenuine : (c : Credentials) (p : Provider) → Reach c p → IsGenuine c p
  unfolding new_provider
  Reach-IsGenuine c _ new = record { same_credentials = refl; issued = λ i h. cc }
  Reach-IsGenuine c _ (begun {p = p} w r) = rw (begin_auth_session_same p w) (Reach-IsGenuine c p r)
  Reach-IsGenuine c _ (submitted {p = p} rounds session code w r) =
      Settled-IsGenuine c p _ (submit-Settled_login rounds session code p w) (Reach-IsGenuine c p r)
  Reach-IsGenuine c _ (confirmed {p = p} rounds session w r) =
      Settled-IsGenuine c p _ (wait-Settled_login rounds session p w) (Reach-IsGenuine c p r)
  Reach-IsGenuine c _ (identified {p = p} rounds w r) =
      Settled-IsGenuine c p (identity transport decoders outside rounds (p, w))
        (identity-Settled transport decoders outside rounds p w) (Reach-IsGenuine c p r)
