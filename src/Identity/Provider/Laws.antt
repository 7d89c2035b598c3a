-- ===== src/Identity/Provider/Laws.antt =====
-- What the methods of the identity provider leave.
use go_steam.Base.{ℕ, Option, none, some, Bytes, ◌≡◌, ◌≢◌, refl}
use go_steam.Base.Results.{ok}
use go_steam.Api.Transport.{Transport}
use go_steam.Api.Services.{Decoders}
use go_steam.Identity.Pick.{pick_code_type, pick_confirmation_type}
use go_steam.Identity.Session.{Identity, AuthSession, Credentials, Outside}
use go_steam.Identity.Provider.{
  Provider, await_identity, submit_code, submit_as, submit_steam_guard_code, wait_as,
  wait_for_confirmation, log_in, identity,
}
use go_steam.Identity.Provider.Settled.{
  Settled, IssuedFor, on_world-Settled, lift-Settled, serve_cached-Settled, await_identity-Settled,
  Settled-mono,
}

module _ {W Modulus : Type 0} (transport : Transport W) (decoders : Decoders)
    (outside : Outside W Modulus) where
  -- Steam took the code, as the type picked for it, and then issued the identity for the session.
  abbrev pub SubmittedFor : AuthSession → Bytes → Identity → Type 0
  SubmittedFor session code i =
      (code_type : ℕ) × (w : W) × (w' : W) × (pick_code_type session.allowed_confirmations
        ≡ some code_type)
      × (submit_code transport decoders outside session code code_type w ≡ (ok tt, w'))
      × IssuedFor transport decoders outside session w' i

  submit_as-Settled :
      (rounds : ℕ) (session : AuthSession) (code : Bytes) (o : Option ℕ) (p : Provider) (w : W)
      → pick_code_type session.allowed_confirmations ≡ o
      → Settled
          (SubmittedFor session code)
          p
          (submit_as transport decoders outside rounds session code o (p, w))
  unfolding submit_as
  submit_as-Settled rounds session code none p w picked = refl
  submit_as-Settled rounds session code (some t) p w picked =
      serve_cached-Settled transport decoders outside (SubmittedFor session code) _ p w (λ w0.
        on_world-Settled transport decoders outside (SubmittedFor session code)
          (submit_code transport decoders outside session code t)
          (λ _. await_identity transport decoders outside rounds session) p w0
          (λ _ w1 taken.
            Settled-mono transport decoders outside (SubmittedFor session code)
              (IssuedFor transport decoders outside session w1) p _
              (λ i issued. (t, w0, w1, picked, taken, issued))
              (await_identity-Settled transport decoders outside rounds session p w1)))

  -- `SubmitSteamGuardCode` fails and leaves the provider as it was, or it returns an identity that it
  -- keeps: the one kept before, or one that Steam issued for the session after it took the code as
  -- the type that is picked for the session.
  pub submit_steam_guard_code-Settled :
      (rounds : ℕ) (session : AuthSession) (code : Bytes) (p : Provider) (w : W)
      → Settled
          (SubmittedFor session code)
          p
          (submit_steam_guard_code transport decoders outside rounds (some session) code (p, w))
  unfolding submit_steam_guard_code
  submit_steam_guard_code-Settled rounds session code p w =
      submit_as-Settled rounds session code (pick_code_type session.allowed_confirmations) p w refl

  abbrev pub ConfirmedFor : AuthSession → Identity → Type 0
  ConfirmedFor session i =
      (pick_confirmation_type session.allowed_confirmations ≢ none)
      × ((w : W) × IssuedFor transport decoders outside session w i)

  wait_as-Settled :
      (rounds : ℕ) (session : AuthSession) (o : Option ℕ) (p : Provider) (w : W)
      → pick_confirmation_type session.allowed_confirmations ≡ o
      → Settled
          (ConfirmedFor session)
          p
          (wait_as transport decoders outside rounds session o (p, w))
  unfolding wait_as
  wait_as-Settled rounds session none p w picked = refl
  wait_as-Settled rounds session (some t) p w picked =
      serve_cached-Settled transport decoders outside (ConfirmedFor session) _ p w (λ w0.
        Settled-mono transport decoders outside (ConfirmedFor session)
          (IssuedFor transport decoders outside session w0) p _
          (λ i issued. (λ h. cc, (w0, issued)))
          (await_identity-Settled transport decoders outside rounds session p w0))

  -- `WaitForConfirmation` fails and leaves the provider as it was, or it returns an identity that it
  -- keeps: the one kept before, or one that Steam issued for the session, which allows a confirmation.
  pub wait_for_confirmation-Settled :
      (rounds : ℕ) (session : AuthSession) (p : Provider) (w : W)
      → Settled
          (ConfirmedFor session)
          p
          (wait_for_confirmation transport decoders outside rounds (some session) (p, w))
  unfolding wait_for_confirmation
  wait_for_confirmation-Settled rounds session p w =
      wait_as-Settled rounds session (pick_confirmation_type session.allowed_confirmations) p w refl

  -- An identity that Steam issued for some session.
  abbrev pub LoggedIn : Identity → Type 0
  LoggedIn i = (session : AuthSession) × (w : W) × IssuedFor transport decoders outside session w i

  log_in-Settled :
      (rounds : ℕ) (c : Credentials) (p : Provider) (w : W)
      → Settled LoggedIn p (log_in transport decoders outside rounds c (p, w))
  unfolding log_in
  log_in-Settled rounds c p w =
      on_world-Settled transport decoders outside LoggedIn _ _ p w (λ session w1 begun.
        lift-Settled transport decoders outside LoggedIn _ _ p w1 (λ _.
          on_world-Settled transport decoders outside LoggedIn _ _ p w1 (λ time w2 told.
            lift-Settled transport decoders outside LoggedIn _ _ p w2 (λ code.
              on_world-Settled transport decoders outside LoggedIn _ _ p w2 (λ _ w3 taken.
                Settled-mono transport decoders outside LoggedIn
                  (IssuedFor transport decoders outside session w3) p _
                  (λ i issued. (session, w3, issued))
                  (await_identity-Settled transport decoders outside rounds session p w3))))))

  -- `Identity` fails and leaves the provider as it was, or it returns an identity that it keeps: the
  -- one kept before, or one that Steam issued for a session.
  pub identity-Settled :
      (rounds : ℕ) (p : Provider) (w : W)
      → Settled LoggedIn p (identity transport decoders outside rounds (p, w))
  unfolding identity
  identity-Settled rounds p w =
      serve_cached-Settled transport decoders outside LoggedIn _ p w
        (λ w0. log_in-Settled rounds p.credentials p w0)
