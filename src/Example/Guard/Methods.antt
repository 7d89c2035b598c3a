-- ===== src/Example/Guard/Methods.antt =====
-- The methods that `resolveSteamGuardCode` settles on, against those that the client accepts.
use go_steam.Base.{
  ℕ, Bool, true, false, Bool-cases, Option, none, some, [], ◌∷◌, List, Bytes, length, ◌==◌, ◌≡◌,
  ◌≢◌, ◌↔◌, inl, inr, arith,
}
use go_steam.Base.Results.{Result, ok, err, wrap_err}
use go_steam.Totp.{TotpError}
use go_steam.Api.Params.{AllowedConfirmation}
use go_steam.Identity.Pick.{
  guard_email_code, guard_device_code, guard_device_confirmation, guard_machine_token, Has,
  pick_code_type, pick_code_type_of, pick_confirmation_type, pick_confirmation_type_device,
}
use go_steam.Identity.Session.{Outside}
use go_steam.Client.{Client}
use go_steam.Example.{
  LineError, end_of_input, input_broken, ExampleError, code_failed, secret_not_allowed,
  needs_external_confirmation, no_usable_method, Host,
}
use go_steam.Example.Guard.{
  confirmation_allowed, typed_code, read_code, code_at, secret_code, resolve_steam_guard_code,
}

confirmation_allowed-Has :
    (cs : List AllowedConfirmation) (t : ℕ) → (confirmation_allowed cs t ≡ true) ↔ Has cs t
unfolding confirmation_allowed
confirmation_allowed-Has [] t = (λ h. cc, λ h. absurd h)
confirmation_allowed-Has (c ∷ cs) t = ground (arith, confirmation_allowed-Has cs t)

-- The call of the client that follows has a confirmation type to go by; the session has no method for
-- the login if there is said to be none.
pub IsAccepted : List AllowedConfirmation → Result ExampleError Bytes → Type 0
IsAccepted allowed (ok code) = pick_code_type allowed ≢ none
IsAccepted allowed (err needs_external_confirmation) =
    pick_confirmation_type allowed ≡ some guard_device_confirmation
IsAccepted allowed (err no_usable_method) =
    ¬ Has allowed guard_email_code
    × ¬ Has allowed guard_machine_token
    × ¬ Has allowed guard_device_confirmation
IsAccepted allowed (err secret_not_allowed) = ¬ Has allowed guard_device_code
IsAccepted allowed (err _) = Unit

module _ {W Modulus : Type 0} (host : Host W) (outside : Outside W Modulus)
    (allowed : List AllowedConfirmation) where
  typed_code-IsAccepted :
      (c : Client) (r : (Bytes × Option LineError) × W)
      → pick_code_type allowed ≢ none
      → IsAccepted allowed (typed_code c r).0
  unfolding typed_code IsAccepted
  typed_code-IsAccepted c ((line, some input_broken), w) h = tt
  typed_code-IsAccepted c ((line, some end_of_input), w) h = h
  typed_code-IsAccepted c ((line, none), w) h = h

  code-IsAccepted :
      (r : Result TotpError Bytes)
      → pick_code_type allowed ≢ none
      → IsAccepted allowed (wrap_err code_failed r)
  unfolding IsAccepted
  code-IsAccepted (ok code) h = h
  code-IsAccepted (err e) h = tt

  -- If `resolveSteamGuardCode` returns a code, `SubmitSteamGuardCode` has a type to submit it as; if it
  -- asks for an external confirmation, `WaitForConfirmation` waits for the one on the device; and it
  -- refuses only a secret without the device code, or a session without email code, machine token and
  -- device confirmation.
  pub resolve-IsAccepted :
      (shared_secret : Bytes) (c : Client) (w : W)
      → IsAccepted allowed (resolve_steam_guard_code host outside shared_secret allowed (c, w)).0
  unfolding resolve_steam_guard_code read_code secret_code code_at IsAccepted
  resolve-IsAccepted shared_secret c w = elim (Bool-cases (length shared_secret == 0)) [
    | inl no_secret ↦ elim (Bool-cases (allowed_ guard_device_confirmation)) [
      | inl device ↦
          rw (no_secret, device)
            (pick_confirmation_type_device allowed ((has guard_device_confirmation).0 device))
      | inr no_device ↦ elim (Bool-cases (allowed_ guard_email_code)) [
        | inl email ↦
            rw (no_secret, no_device, email)
              (typed_code-IsAccepted c _ (pick_code_type_of allowed (inr (inl ((has _).0 email)))))
        | inr no_email ↦ elim (Bool-cases (allowed_ guard_machine_token)) [
          | inl token ↦
              rw (no_secret, no_device, no_email, token)
                (typed_code-IsAccepted c _
                  (pick_code_type_of allowed (inr (inr ((has _).0 token)))))
          | inr no_token ↦
              rw (no_secret, no_device, no_email, no_token)
                (lacks _ no_email, lacks _ no_token, lacks _ no_device)
        ]
      ]
    ]
    | inr secret ↦ elim (Bool-cases (allowed_ guard_device_code)) [
      | inl device ↦
          rw (secret, device)
            (code-IsAccepted _ (pick_code_type_of allowed (inl ((has _).0 device))))
      | inr no_device ↦ rw (secret, no_device) (lacks _ no_device)
    ]
  ]
    where
      allowed_ : ℕ → Bool
      allowed_ t = confirmation_allowed allowed t

      has : (t : ℕ) → (allowed_ t ≡ true) ↔ Has allowed t
      has t = confirmation_allowed-Has allowed t

      lacks : (t : ℕ) → allowed_ t ≡ false → ¬ Has allowed t
      lacks t missing h = let yes = (has t).1 h in cc
