-- ===== src/Api/Http/Laws.antt =====
-- What a call over HTTP that succeeds says of the request and the response (api/transports/http.go).
use go_steam.Base.{
  ℕ, Bool, true, false, Option, none, some, [], ◌∷◌, List, Bytes, codes, bytes_equal_sound, ◌≡◌,
  refl, ◌⊎◌, inl, inr, arith,
}
use go_steam.Base.Results.{Result, ok, guard, or_err}
use go_steam.Base.Effects.{lift, and_then_inv, wrap_call_inv}
use go_steam.Api.Params.{Params}
use go_steam.Api.Transport.{Verb, values_failed, request_failed, decode_failed}
use go_steam.Api.Http.{
  HttpTransport, Response, HttpOutside, request_of, is_success, values_of, http_call,
}

is_success_cases : (e : Bytes) → is_success e ≡ true → (e ≡ []) ⊎ (e ≡ codes "1")
unfolding is_success
is_success_cases [] h = inl refl
is_success_cases (c ∷ e) h = inr (bytes_equal_sound (c ∷ e) (codes "1") (ground arith))

guard_inv : {E : Type 0} (b : Bool) (e : E) → guard b e ≡ ok tt → b ≡ true
guard_inv true e h = refl
guard_inv false e h = cc

lift_inv :
    {E W A : Type 0} (r : Result E A) (w w' : W) (a : A)
    → lift r w ≡ (ok a, w')
    → (r ≡ ok a) × (w ≡ w')
lift_inv r w w' a h = (cc, cc)

or_err_inv : {E A : Type 0} (o : Option A) (e : E) (a : A) → or_err o e ≡ ok a → o ≡ some a
or_err_inv none e a h = cc
or_err_inv (some b) e a h = cc

module _ {W : Type 0} (out : HttpOutside W) where
  -- A call that succeeds did one request, that of `request_of`, and its response has no error in
  -- `X-Eresult` and decodes to the result.
  pub http_call_sound :
      (t : HttpTransport) (R : Type 0) (verb : Verb) (service method : Bytes) (version : ℕ)
      (params : Params) (decode : Bytes → Option R) (w w' : W) (r : R)
      → http_call out t R verb service method version params decode w ≡ (ok r, w')
      → (values : List (Bytes × Bytes)) × (response : Response) × (values_of out params
          ≡ some values)
        × (out.do_request (request_of t verb service method version (out.encode values)) w
            ≡ (ok response, w'))
        × ((response.eresult ≡ []) ⊎ (response.eresult ≡ codes "1"))
        × (decode response.body ≡ some r)
  unfolding http_call
  http_call_sound t R verb service method version params decode w w' r h =
      let (values, w1, got, h1) = and_then_inv _ _ r w' h in
      let (some_values, e1) = lift_inv _ w w1 values got in
      let request = request_of t verb service method version (out.encode values) in
      let (_, w2, valid, h2) = and_then_inv _ _ r w' h1 in
      let (_, e2) = lift_inv _ w1 w2 tt valid in
      let (response, w3, done, h3) = and_then_inv _ _ r w' h2 in
      let answered =
        wrap_call_inv (λ _. request_failed) (out.do_request request) w2 w3 response done in
      let (_, w4, success, h4) = and_then_inv _ _ r w' h3 in
      let (good, e3) = lift_inv _ w3 w4 tt success in
      let (decoded, e4) = lift_inv _ w4 w' r h4 in
      (
        values,
        response,
        or_err_inv (values_of out params) values_failed values some_values,
        cc,
        is_success_cases response.eresult (guard_inv _ _ good),
        or_err_inv (decode response.body) decode_failed r decoded,
      )
