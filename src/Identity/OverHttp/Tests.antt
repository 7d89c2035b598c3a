-- ===== src/Identity/OverHttp/Tests.antt =====
-- A login over HTTP at concrete responses: the body of each is the step it is given at.
use go_steam.Base.{
  ℕ, suc, true, some, [], ◌∷◌, codes, bytes_equal_refl, ◌≡◌, refl, ap, inl, inr, arith,
}
use go_steam.Base.Results.{ok}
use go_steam.Base.Effects.{and_then, wrap_call, wrap_result}
use go_steam.Api.Transport.{Transport}
use go_steam.Api.Http.{
  new_http_transport, HttpOutside, http_call, values_of, is_success, http_transport,
}
use go_steam.Api.Services.{poll_auth_session_status, update_auth_session_with_steam_guard_code}
use go_steam.Identity.Pick.{guard_device_code, pick_code_type, pick_code_type_iff}
use go_steam.Identity.Poll.Laws.{Polled, here}
use go_steam.Identity.Provider.{new_provider, submit_code, submit_steam_guard_code}
use go_steam.Identity.Provider.Complete.{Issues, submit_steam_guard_code-Issues}
use go_steam.Identity.Provider.Invariant.{new, submitted}
use go_steam.Identity.Tests.{test_decoders, test_outside, test_session, test_credentials, status}
use go_steam.Identity.OverHttp.{IsFromPoll, Reach-IsFromPoll}

abbrev counting : HttpOutside ℕ
counting = record {
  query_values = λ params. some [];
  encode = λ values. [];
  is_request = λ request. true;
  do_request = λ request w. (ok (record { eresult = codes "1"; body = w ∷ [] }), suc w);
}

abbrev over_http : Transport ℕ
over_http = http_transport counting new_http_transport

http_status : Polled over_http test_decoders test_outside test_session 4 (status (7 ∷ [])) 5
unfolding wrap_call wrap_result poll_auth_session_status http_call values_of is_success and_then
http_status = (4, refl, rw (bytes_equal_refl (codes "1")) refl)

http_taken :
    submit_code over_http test_decoders test_outside test_session
      (codes "R2D2C")
      guard_device_code
      3
    ≡ (ok tt, 4)
unfolding submit_code update_auth_session_with_steam_guard_code wrap_call wrap_result http_call
    values_of is_success and_then
http_taken = rw (bytes_equal_refl (codes "1")) refl

http_picked : pick_code_type test_session.allowed_confirmations ≡ some guard_device_code
http_picked =
    (pick_code_type_iff test_session.allowed_confirmations guard_device_code).0.1
      (inl (refl, inr (inl refl)))

logged_in :
    Issues over_http test_decoders test_outside test_session
      (status (7 ∷ []))
      (new_provider test_credentials)
      (submit_steam_guard_code over_http test_decoders test_outside 9
        (some test_session)
        (codes "R2D2C")
        (new_provider test_credentials, 3))
unfolding new_provider
logged_in =
    submit_steam_guard_code-Issues over_http test_decoders test_outside 9 0 guard_device_code
      test_session (codes "R2D2C") (status (7 ∷ [])) (new_provider test_credentials) 3 4 5 refl
      http_picked http_taken (4, here, http_status, λ h. cc) (omega arith)

Reach-IsFromPoll_example :
    IsFromPoll counting new_http_transport test_decoders test_outside logged_in.0
Reach-IsFromPoll_example =
    Reach-IsFromPoll counting new_http_transport test_decoders test_outside test_credentials
      (submit_steam_guard_code over_http test_decoders test_outside 9 (some test_session)
        (codes "R2D2C") (new_provider test_credentials, 3)).1.0
      logged_in.0 (submitted 9 (some test_session) (codes "R2D2C") 3 new)
      (ap (λ r. r.1.0.identity) logged_in.2)
