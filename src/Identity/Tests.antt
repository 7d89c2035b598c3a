-- ===== src/Identity/Tests.antt =====
-- The theorems on the identity provider at concrete inputs: a world that counts what happens in it, and
-- a service that issues a refresh token from the fourth step on.
use go_steam.Base.{
  ℕ, suc, true, false, Option, none, some, [], ◌∷◌, List, Bytes, ltb, codes, if◌then◌else◌, ◌≡◌,
  inl, inr, refl, arith,
}
use go_steam.Base.Results.{Result, ok, err}
use go_steam.Base.Effects.{wrap_call, wrap_result}
use go_steam.Api.Params.{AllowedConfirmation, PollResponse}
use go_steam.Api.Transport.{CallError, decode_failed, Transport}
use go_steam.Api.Services.{
  Decoders, poll_auth_session_status, update_auth_session_with_steam_guard_code,
}
use go_steam.Identity.Pick.{guard_email_code, guard_device_code, pick_code_type, pick_code_type_iff}
use go_steam.Identity.Session.{AuthSession, Credentials, Outside}
use go_steam.Identity.Poll.{poll_loop}
use go_steam.Identity.Poll.Laws.{Pending, Polled, Issued, here, round, poll_loop_iff}
use go_steam.Identity.Provider.{new_provider, submit_code, submit_steam_guard_code}
use go_steam.Identity.Provider.Settled.{Settled}
use go_steam.Identity.Provider.Laws.{SubmittedFor, submit_steam_guard_code-Settled}
use go_steam.Identity.Provider.Complete.{Issues, submit_steam_guard_code-Issues}
use go_steam.Identity.Provider.Invariant.{new, submitted, IsGenuine, Reach-IsGenuine}

-- The text of a response is the step it is given at.
abbrev answered : {R : Type 0} → Option R → ℕ → Result CallError R × ℕ
answered none w = (err decode_failed, w)
answered (some r) w = (ok r, w)

abbrev pub test_transport : Transport ℕ
test_transport = record {
  call = λ R verb service method version params decode w. answered (decode (w ∷ [])) (suc w);
}

abbrev pub status : Bytes → PollResponse
status token = record {
  new_client_id = [];
  new_challenge_url = [];
  refresh_token = token;
  access_token = 8 ∷ [];
  had_remote_interaction = true;
  account_name = [];
  new_guard_data = [];
  agreement_session_url = [];
}

abbrev poll_at : Bytes → Option PollResponse
poll_at [] = none
poll_at (n ∷ rest) = some (status (if ltb n 3 then [] else (7 ∷ [])))

abbrev pub confirmations : List AllowedConfirmation
confirmations =
    record { confirmation_type = guard_email_code; associated_message = [] }
    ∷ record { confirmation_type = guard_device_code; associated_message = [] }
    ∷ []

abbrev pub test_decoders : Decoders
test_decoders = record {
  begin_response = λ s. some (record {
    client_id = 5;
    request_id = 6 ∷ [];
    interval = 2;
    allowed_confirmations = confirmations;
    steam_id = 76561197960287930;
    extended_error_message = [];
  });
  token_response = λ s. none;
  rsa_key_response =
      λ s. some (record { public_key_mod = codes "c5"; public_key_exp = codes "3"; timestamp = 9 });
  poll_response = poll_at;
  empty_response = λ s. some tt;
  server_list_response = λ s. none;
  trade_offers_response = λ s. none;
  owned_games_response = λ s. none;
  time_response = λ s. some 1700000000;
}

abbrev pub test_outside : Outside ℕ Bytes
test_outside = record {
  done = λ w. (false, w);
  wait = λ interval w. (false, suc w);
  now = λ w. (w, w);
  parse_modulus = λ s. some s;
  parse_exponent = λ s. some 3;
  encrypt = λ modulus exponent s w. (some s, w);
  encode_base64 = λ s. s;
  decode_base64 = λ s. some s;
  hmac_sha1 = λ key s. key;
}

abbrev pub test_session : AuthSession
test_session = record {
  client_id = 5;
  request_id = 6 ∷ [];
  steam_id = 76561197960287930;
  interval = 2000000000;
  allowed_confirmations = confirmations;
}

abbrev pub test_credentials : Credentials
test_credentials = record {
  account_name = codes "gordon";
  password = codes "crowbar";
  shared_secret = codes "secret";
}

polled :
    (w : ℕ)
    → Polled test_transport test_decoders test_outside test_session w
        (status (if ltb w 3 then [] else (7 ∷ [])))
        (suc w)
unfolding wrap_call wrap_result poll_auth_session_status
polled w = (w, refl, refl)

pending : Pending test_transport test_decoders test_outside test_session 2 0 4
pending = round (status []) (polled 0) refl refl (round (status []) (polled 2) refl refl here)

issued : Issued test_transport test_decoders test_outside test_session 2 0 (status (7 ∷ [])) 5
issued = (4, pending, polled 4, λ h. cc)

poll_loop_iff_example :
    poll_loop test_transport test_decoders test_outside test_session 9 0 ≡ (ok (status (7 ∷ [])), 5)
poll_loop_iff_example =
    (poll_loop_iff test_transport test_decoders test_outside test_session 9 0 5 (status (7 ∷ []))).1
      (2, omega arith, issued)

submit_steam_guard_code-Settled_example :
    Settled
      (SubmittedFor test_transport test_decoders test_outside test_session (codes "R2D2C"))
      (new_provider test_credentials)
      (submit_steam_guard_code test_transport test_decoders test_outside 9
        (some test_session)
        (codes "R2D2C")
        (new_provider test_credentials, 0))
submit_steam_guard_code-Settled_example =
    submit_steam_guard_code-Settled test_transport test_decoders test_outside 9 test_session
      (codes "R2D2C") (new_provider test_credentials) 0

Reach-IsGenuine_example :
    IsGenuine test_transport test_decoders test_outside test_credentials
      (submit_steam_guard_code test_transport test_decoders test_outside 9
        (some test_session)
        (codes "R2D2C")
        (new_provider test_credentials, 0)).1.0
Reach-IsGenuine_example =
    Reach-IsGenuine test_transport test_decoders test_outside test_credentials
      (submit_steam_guard_code test_transport test_decoders test_outside 9 (some test_session)
        (codes "R2D2C") (new_provider test_credentials, 0)).1.0
      (submitted 9 (some test_session) (codes "R2D2C") 0 new)

taken :
    submit_code test_transport test_decoders test_outside test_session
      (codes "R2D2C")
      guard_device_code
      0
    ≡ (ok tt, 1)
unfolding submit_code update_auth_session_with_steam_guard_code wrap_call wrap_result
taken = refl

token_later : Issued test_transport test_decoders test_outside test_session 1 1 (status (7 ∷ [])) 4
token_later = (3, round (status []) (polled 1) refl refl here, polled 3, λ h. cc)

picked : pick_code_type confirmations ≡ some guard_device_code
picked = (pick_code_type_iff confirmations guard_device_code).0.1 (inl (refl, inr (inl refl)))

submit_steam_guard_code-Issues_example :
    Issues test_transport test_decoders test_outside test_session
      (status (7 ∷ []))
      (new_provider test_credentials)
      (submit_steam_guard_code test_transport test_decoders test_outside 9
        (some test_session)
        (codes "R2D2C")
        (new_provider test_credentials, 0))
unfolding new_provider
submit_steam_guard_code-Issues_example =
    submit_steam_guard_code-Issues test_transport test_decoders test_outside 9 1 guard_device_code
      test_session (codes "R2D2C") (status (7 ∷ [])) (new_provider test_credentials) 0 1 4 refl
      picked taken token_later (omega arith)
