-- ===== src/Api/Http/Tests.antt =====
-- The theorems on the HTTP transport at a concrete request.
use go_steam.Base.{
  ℕ, suc, true, none, some, [], ◌∷◌, ◌++◌, List, Bytes, codes, bytes_equal_refl, ◌≡◌, ◌⊎◌, refl,
}
use go_steam.Base.Results.{ok}
use go_steam.Base.Effects.{and_then, wrap_call, wrap_result}
use go_steam.Api.Params.{no_params}
use go_steam.Api.Transport.{post}
use go_steam.Api.Http.{
  new_http_transport, Request, Response, HttpOutside, request_of, is_success, values_of, http_call,
}
use go_steam.Api.Http.Served.{
  has_mark, IsGiven, path_of, form_of, endpoint, slash_behind, carried, http_call_served,
}

abbrev pub test_response : Response
test_response = record { eresult = codes "1"; body = codes "17" }

abbrev pub test_http : HttpOutside ℕ
test_http = record {
  query_values = λ params. none;
  encode = λ values. codes "format=json";
  is_request = λ request. true;
  do_request = λ request w. (ok test_response, suc w);
}

called :
    http_call test_http new_http_transport Bytes post
      (codes "ITwoFactorService")
      (codes "QueryTime")
      1
      no_params
      (λ s. some s)
      4
    ≡ (ok (codes "17"), 5)
unfolding http_call and_then wrap_call wrap_result is_success values_of request_of
called = rw (bytes_equal_refl (codes "1")) refl

http_call_served_example :
    (given : List (Bytes × Bytes)) × (request : Request) × (response : Response) × IsGiven test_http
      no_params given
    × (request.verb ≡ post)
    × (path_of request
        ≡ endpoint
            (codes "https://api.steampowered.com")
            (codes "ITwoFactorService")
            (codes "QueryTime")
            1
          ++ slash_behind post)
    × (form_of request
        ≡ carried post (test_http.encode (given ++ (codes "format", codes "json") ∷ [])))
    × (test_http.do_request request 4 ≡ (ok response, 5))
    × ((response.eresult ≡ []) ⊎ (response.eresult ≡ codes "1"))
    × (some response.body ≡ some (codes "17"))
unfolding has_mark
http_call_served_example =
    http_call_served test_http new_http_transport Bytes post (codes "ITwoFactorService")
      (codes "QueryTime") 1 no_params (λ s. some s) 4 5 (codes "17") refl refl refl called
