-- ===== src/Identity/Pick.antt =====
-- `pickCodeType` and `pickConfirmationType` of identity/credentials.go. The guard types are numbers
-- of language/steam/steammessages_auth.steamclient.pb.go.
use go_steam.Base.{
  ℕ, Bool, true, false, ◌||◌, Option, none, some, [], ◌∷◌, List, ◌≡◌, ◌↔◌, ◌≢◌, ◌⊎◌, inl, inr, ◌==◌,
  if◌then◌else◌, arith,
}
use go_steam.Api.Params.{AllowedConfirmation}

abbrev pub guard_email_code : ℕ
guard_email_code = 2

abbrev pub guard_device_code : ℕ
guard_device_code = 3

abbrev pub guard_device_confirmation : ℕ
guard_device_confirmation = 4

abbrev pub guard_email_confirmation : ℕ
guard_email_confirmation = 5

abbrev pub guard_machine_token : ℕ
guard_machine_token = 6

-- Whether the map `allowed` has the type.
pub allows : List AllowedConfirmation → ℕ → Bool
allows [] t = false
allows (c ∷ cs) t = c.confirmation_type == t || allows cs t

-- The loop over the priorities.
pick_first : List ℕ → List AllowedConfirmation → Option ℕ
pick_first [] confirmations = none
pick_first (p ∷ ps) confirmations =
    if allows confirmations p then some p else pick_first ps confirmations

pub pick_code_type : List AllowedConfirmation → Option ℕ
unfolding pick_first
pick_code_type = pick_first (guard_device_code ∷ guard_email_code ∷ guard_machine_token ∷ [])

pub pick_confirmation_type : List AllowedConfirmation → Option ℕ
unfolding pick_first
pick_confirmation_type = pick_first (guard_device_confirmation ∷ guard_email_confirmation ∷ [])

-- A confirmation of the list has the type.
abbrev pub Has : List AllowedConfirmation → ℕ → Type 0
Has [] t = ⊥
Has (c ∷ cs) t = (c.confirmation_type ≡ t) ⊎ Has cs t

allows-Has : (cs : List AllowedConfirmation) (t : ℕ) → (allows cs t ≡ true) ↔ Has cs t
unfolding allows
allows-Has [] t = (λ h. cc, λ h. absurd h)
allows-Has (c ∷ cs) t = ground (arith, allows-Has cs t)

-- A code is submitted as device code if a confirmation of that type is allowed, else as email code,
-- else as machine token, each if allowed; and there is no type for it exactly if none of the three is.
pub pick_code_type_iff :
    (cs : List AllowedConfirmation) (t : ℕ)
    → ((pick_code_type cs ≡ some t) ↔ (
        ((t ≡ guard_device_code) × Has cs guard_device_code)
        ⊎ ((t ≡ guard_email_code) × Has cs guard_email_code × ¬ Has cs guard_device_code)
        ⊎ ((t ≡ guard_machine_token)
            × Has cs guard_machine_token
            × ¬ Has cs guard_email_code
            × ¬ Has cs guard_device_code)))
      × ((pick_code_type cs ≡ none)
          ↔ (¬ Has cs guard_device_code × ¬ Has cs guard_email_code × ¬ Has cs guard_machine_token))
unfolding pick_code_type pick_first
pick_code_type_iff cs t =
    let device = allows-Has cs guard_device_code in
    let email = allows-Has cs guard_email_code in
    let token = allows-Has cs guard_machine_token in ground arith

-- Of the two external confirmations, the one on the device comes first.
pub pick_confirmation_type_device :
    (cs : List AllowedConfirmation)
    → Has cs guard_device_confirmation
    → pick_confirmation_type cs ≡ some guard_device_confirmation
unfolding pick_confirmation_type pick_first
pick_confirmation_type_device cs h = ground (arith, allows-Has cs guard_device_confirmation)

pub pick_confirmation_type_email :
    (cs : List AllowedConfirmation)
    → ¬ Has cs guard_device_confirmation
    → Has cs guard_email_confirmation
    → pick_confirmation_type cs ≡ some guard_email_confirmation
unfolding pick_confirmation_type pick_first
pick_confirmation_type_email cs d h =
    ground (arith, allows-Has cs guard_device_confirmation, allows-Has cs guard_email_confirmation)

pub pick_code_type_of :
    (cs : List AllowedConfirmation)
    → Has cs guard_device_code ⊎ Has cs guard_email_code ⊎ Has cs guard_machine_token
    → pick_code_type cs ≢ none
pick_code_type_of cs h e =
    let (no_device, no_email, no_token) = (pick_code_type_iff cs 0).1.0 e in
    elim h [ inl x ↦ no_device x | inr (inl x) ↦ no_email x | inr (inr x) ↦ no_token x ]
