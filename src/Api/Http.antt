-- ===== src/Api/Http.antt =====
-- `HTTPTransport` of api/transports/http.go. The HTTP client, go-querystring and the encoding of
-- net/url are arguments; the tracer only observes.
pub mod Laws
mod Served
pub mod Tests
use go_steam.Base.{
  ℕ, Bool, ◌||◌, Option, none, some, [], ◌∷◌, ◌++◌, List, Bytes, codes, length, bytes_equal, ◌==◌,
}
use go_steam.Base.Decimal.{format_uint}
use go_steam.Base.Results.{Result, guard, or_err}
use go_steam.Base.Effects.{Call, ◌>>=◌, ◌>>◌, pure, lift, wrap_call}
use go_steam.Api.Params.{Params, no_params}
use go_steam.Api.Transport.{
  Verb, get, post, other, CallError, values_failed, request_invalid, request_failed, decode_failed,
  eresult_failed, Transport,
}

pub record HttpTransport : Type 0 where
  pub base_url : Bytes
  pub user_agent : Bytes

-- `NewHTTPTransport` without options.
abbrev pub new_http_transport : HttpTransport
new_http_transport = record {
  base_url = codes "https://api.steampowered.com";
  user_agent = codes "go-steam";
}

-- A request; the content type is its only header.
pub record Request : Type 0 where
  pub verb : Verb
  pub url : Bytes
  pub content_type : Option Bytes
  pub body : Bytes

-- A response: the header `X-Eresult`, empty if it is missing, and the body.
pub record Response : Type 0 where
  pub eresult : Bytes
  pub body : Bytes

pub record HttpOutside (W : Type 0) : Type 0 where
  pub query_values : Params → Option (List (Bytes × Bytes))
  pub encode : List (Bytes × Bytes) → Bytes
  pub is_request : Request → Bool
  pub do_request : Request → Call (Unit {0}) W Response

-- `base/service/method/vN`
method_url : HttpTransport → Bytes → Bytes → ℕ → Bytes
method_url t service method version =
    t.base_url
    ++ (codes "/" ++ (service ++ (codes "/" ++ (method ++ (codes "/v" ++ format_uint version)))))

-- The request for a method, with its encoded values.
pub request_of : HttpTransport → Verb → Bytes → Bytes → ℕ → Bytes → Request
request_of t get service method version values = record {
  verb = get;
  url = method_url t service method version ++ (codes "/?" ++ values);
  content_type = none;
  body = [];
}
request_of t post service method version values = record {
  verb = post;
  url = method_url t service method version;
  content_type = some (codes "application/x-www-form-urlencoded");
  body = values;
}
request_of t (other verb) service method version values = record {
  verb = other verb;
  url = method_url t service method version;
  content_type = none;
  body = [];
}

-- The header says nothing, or that the call succeeded.
unfoldable pub is_success : Bytes → Bool
is_success eresult = length eresult == 0 || bytes_equal eresult (codes "1")

module _ {W : Type 0} (out : HttpOutside W) where
  open out use {query_values, encode, is_request, do_request}

  -- The values of the parameters, of which nil has none, with the format.
  unfoldable pub values_of : Params → Option (List (Bytes × Bytes))
  values_of no_params = some ((codes "format", codes "json") ∷ [])
  values_of params = elim (query_values params) [
    | none ↦ none
    | some values ↦ some (values ++ (codes "format", codes "json") ∷ [])
  ]

  unfoldable pub http_call :
      HttpTransport
      → (R : Type 0) → Verb
      → Bytes
      → Bytes
      → ℕ
      → Params
      → (Bytes → Option R)
      → Call CallError W R
  http_call t R verb service method version params decode = do
    values ← lift (or_err (values_of params) values_failed)
    let request = request_of t verb service method version (encode values)
    lift (guard (is_request request) request_invalid)
    response ← wrap_call (λ _. request_failed) (do_request request)
    lift (guard (is_success response.eresult) (eresult_failed response.eresult))
    lift (or_err (decode response.body) decode_failed)

  -- The transport behind the interface.
  abbrev pub http_transport : HttpTransport → Transport W
  http_transport t = record { call = http_call t }
