-- ===== src/Api/Http/Served.antt =====
-- What a server reads from the request of a call over HTTP that succeeds (api/transports/http.go).
use go_steam.Base.{
  ℕ, Bool, false, Option, none, some, [], ◌∷◌, ◌++◌, List, Bytes, codes, bytes_equal,
  bytes_equal_refl, append_assoc, append-nil, ◌≡◌, ◌∙◌, sym, refl, ◌⊎◌, inl, inr, ◌==◌, ◌||◌,
  if◌then◌else◌, All, All-append, ap, arith,
}
use go_steam.Base.Decimal.{IsDigit, format_uint, format_uint-IsDigit}
use go_steam.Base.Results.{ok}
use go_steam.Api.Params.{
  Params, no_params, begin_params, token_params, rsa_key_params, poll_params, revoke_params,
  guard_code_params, server_list_params, trade_offers_params, owned_games_params,
}
use go_steam.Api.Transport.{Verb, get, post, other}
use go_steam.Api.Http.{
  HttpTransport, Request, Response, HttpOutside, method_url, request_of, values_of, http_call,
}
use go_steam.Api.Http.Laws.{http_call_sound}

-- The texts in front of the first question mark, and behind it.
before_mark : Bytes → Bytes
before_mark [] = []
before_mark (c ∷ cs) = if c == b'?' then [] else c ∷ before_mark cs

after_mark : Bytes → Bytes
after_mark [] = []
after_mark (c ∷ cs) = if c == b'?' then cs else after_mark cs

abbrev IsNoMark : ℕ → Type 0
IsNoMark c = (c == b'?') ≡ false

unfoldable pub has_mark : Bytes → Bool
has_mark [] = false
has_mark (c ∷ cs) = c == b'?' || has_mark cs

has_mark-All : (cs : Bytes) → has_mark cs ≡ false → All IsNoMark cs
unfolding has_mark
has_mark-All [] h = tt
has_mark-All (c ∷ cs) h = (ground arith, has_mark-All cs (ground arith))

-- What a server reads from a request: the path, and the form, which stands in the URL of a GET and in
-- the body of a POST, if that has the content type of a form.
pub path_of : Request → Bytes
path_of request = before_mark request.url

form_in : Verb → Option Bytes → Request → Bytes
form_in get content request = after_mark request.url
form_in post (some content) request =
    if bytes_equal content (codes "application/x-www-form-urlencoded") then request.body else []
form_in post none request = []
form_in (other verb) content request = []

pub form_of : Request → Bytes
form_of request = form_in request.verb request.content_type request

-- The path of a method, and what the server gets of its form; only GET and POST carry one.
pub slash_behind : Verb → Bytes
slash_behind get = codes "/"
slash_behind _ = []

pub carried : Verb → Bytes → Bytes
carried (other verb) form = []
carried _ form = form

before_mark_none : (xs : Bytes) → All IsNoMark xs → before_mark xs ≡ xs
unfolding before_mark
before_mark_none [] h = refl
before_mark_none (c ∷ cs) (hc, h) = rw hc (ap (λ (s : Bytes). c ∷ s) (before_mark_none cs h))

before_mark-append : (xs ys : Bytes) → All IsNoMark xs → before_mark (xs ++ b'?' ∷ ys) ≡ xs
unfolding before_mark
before_mark-append [] ys h = refl
before_mark-append (c ∷ cs) ys (hc, h) =
    rw hc (ap (λ (s : Bytes). c ∷ s) (before_mark-append cs ys h))

after_mark-append : (xs ys : Bytes) → All IsNoMark xs → after_mark (xs ++ b'?' ∷ ys) ≡ ys
unfolding after_mark
after_mark-append [] ys h = refl
after_mark-append (c ∷ cs) ys (hc, h) = rw hc (after_mark-append cs ys h)

digit-IsNoMark : (c : ℕ) → IsDigit c → IsNoMark c
digit-IsNoMark c h = ground arith

digits-IsNoMark : (cs : Bytes) → All IsDigit cs → All IsNoMark cs
digits-IsNoMark [] h = tt
digits-IsNoMark (c ∷ cs) (hc, h) = (digit-IsNoMark c hc, digits-IsNoMark cs h)

-- `base/service/method/vN`, written out.
abbrev pub endpoint : Bytes → Bytes → Bytes → ℕ → Bytes
endpoint base service method version =
    base
    ++ (codes "/" ++ (service ++ (codes "/" ++ (method ++ (codes "/v" ++ format_uint version)))))

endpoint-IsNoMark :
    (base service method : Bytes) (version : ℕ)
    → All IsNoMark base
    → All IsNoMark service
    → All IsNoMark method
    → All IsNoMark (endpoint base service method version)
endpoint-IsNoMark base service method version hb hs hm =
    let digits = digits-IsNoMark (format_uint version) (format_uint-IsDigit version) in
    let tail = All-append _ method (codes "/v" ++ format_uint version) hm (refl, (refl, digits)) in
    All-append _ base _ hb (refl, All-append _ service _ hs (refl, tail))

module _ (t : HttpTransport) (service method : Bytes) (version : ℕ) (base : All IsNoMark t.base_url)
    (hs : All IsNoMark service) (hm : All IsNoMark method) where
  request_of_served :
      (verb : Verb) (form : Bytes)
      → let request = request_of t verb service method version form in
        (request.verb ≡ verb)
        × (path_of request ≡ endpoint t.base_url service method version ++ slash_behind verb)
        × (form_of request ≡ carried verb form)
  unfolding request_of method_url path_of form_of form_in slash_behind carried
  request_of_served get form =
      let path = endpoint t.base_url service method version in
      let whole : All IsNoMark (path ++ codes "/") =
        All-append _ path (codes "/") (endpoint-IsNoMark _ _ _ version base hs hm) (refl, tt) in
      let split : path ++ (codes "/?" ++ form) ≡ (path ++ codes "/") ++ b'?' ∷ form =
        sym (append_assoc path (codes "/") (b'?' ∷ form)) in
      (
        refl,
        ap before_mark split ∙ before_mark-append (path ++ codes "/") form whole,
        ap after_mark split ∙ after_mark-append (path ++ codes "/") form whole,
      )
  request_of_served post form = (
    refl,
    before_mark_none _ (endpoint-IsNoMark _ _ _ version base hs hm) ∙ sym (append-nil _),
    rw (bytes_equal_refl (codes "application/x-www-form-urlencoded")) refl,
  )
  request_of_served (other verb) form = (
    refl,
    before_mark_none _ (endpoint-IsNoMark _ _ _ version base hs hm) ∙ sym (append-nil _),
    refl,
  )

-- What the parameters of a call give: nothing for nil, or what go-querystring makes of them.
abbrev pub IsGiven : {W : Type 0} → HttpOutside W → Params → List (Bytes × Bytes) → Type 0
IsGiven out params given =
    ((params ≡ no_params) × (given ≡ [])) ⊎ (out.query_values params ≡ some given)

module _ {W : Type 0} (out : HttpOutside W) where
  with_format :
      (sent : Params) (o : Option (List (Bytes × Bytes))) (values : List (Bytes × Bytes))
      → out.query_values sent ≡ o
      → elim o [ none ↦ none | some given ↦ some (given ++ (codes "format", codes "json") ∷ []) ]
        ≡ some values
      → (given : List (Bytes × Bytes)) × IsGiven out sent given
        × (given ++ (codes "format", codes "json") ∷ [] ≡ values)
  with_format sent none values e h = cc
  with_format sent (some given) values e h = (given, inr e, cc)

  values_of-IsGiven :
      (params : Params) (values : List (Bytes × Bytes))
      → values_of out params ≡ some values
      → (given : List (Bytes × Bytes)) × IsGiven out params given
        × (given ++ (codes "format", codes "json") ∷ [] ≡ values)
  unfolding values_of
  values_of-IsGiven no_params values h = ([], inl (refl, refl), cc)
  values_of-IsGiven (begin_params x) values h = with_format (begin_params x) _ values refl h
  values_of-IsGiven (token_params x) values h = with_format (token_params x) _ values refl h
  values_of-IsGiven (rsa_key_params x) values h = with_format (rsa_key_params x) _ values refl h
  values_of-IsGiven (poll_params x) values h = with_format (poll_params x) _ values refl h
  values_of-IsGiven (revoke_params x) values h = with_format (revoke_params x) _ values refl h
  values_of-IsGiven (guard_code_params x) values h =
      with_format (guard_code_params x) _ values refl h
  values_of-IsGiven (server_list_params x) values h =
      with_format (server_list_params x) _ values refl h
  values_of-IsGiven (trade_offers_params x) values h =
      with_format (trade_offers_params x) _ values refl h
  values_of-IsGiven (owned_games_params x) values h =
      with_format (owned_games_params x) _ values refl h

  -- A call that succeeds sent one request, in which a server finds the verb, the path of the method,
  -- and, for GET and POST, the encoded values: those of the parameters with `format=json` behind them.
  -- The response has no error in `X-Eresult` and decodes to the result. This is for a base URL, a
  -- service and a method without a question mark.
  pub http_call_served :
      (t : HttpTransport) (R : Type 0) (verb : Verb) (service method : Bytes) (version : ℕ)
      (params : Params) (decode : Bytes → Option R) (w w' : W) (r : R)
      → has_mark t.base_url ≡ false
      → has_mark service ≡ false
      → has_mark method ≡ false
      → http_call out t R verb service method version params decode w ≡ (ok r, w')
      → (given : List (Bytes × Bytes)) × (request : Request) × (response : Response) × IsGiven out
          params given
        × (request.verb ≡ verb)
        × (path_of request ≡ endpoint t.base_url service method version ++ slash_behind verb)
        × (form_of request
            ≡ carried verb (out.encode (given ++ (codes "format", codes "json") ∷ [])))
        × (out.do_request request w ≡ (ok response, w'))
        × ((response.eresult ≡ []) ⊎ (response.eresult ≡ codes "1"))
        × (decode response.body ≡ some r)
  http_call_served t R verb service method version params decode w w' r base hs hm h =
      let (values, response, listed, sent, good, decoded) =
        http_call_sound out t R verb service method version params decode w w' r h in
      let (given, from, ends) = values_of-IsGiven params values listed in
      let (same, path, form) =
        request_of_served t service method version (has_mark-All _ base) (has_mark-All _ hs)
          (has_mark-All _ hm) verb (out.encode values) in
      (
        given,
        request_of t verb service method version (out.encode values),
        response,
        from,
        same,
        path,
        rw ends form,
        sent,
        good,
        decoded,
      )
