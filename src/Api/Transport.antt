-- ===== src/Api/Transport.antt =====
-- The interface `Transport` of api/transports/transport.go.
use go_steam.Base.{ℕ, Option, Bytes}
use go_steam.Base.Effects.{Call}
use go_steam.Api.Params.{Params}

pub data Verb : Type 0 where
  get post : Verb
  other : Bytes → Verb

-- The error of a call: the code of `X-Eresult` is one of them.
pub data CallError : Type 0 where
  values_failed request_invalid request_failed decode_failed : CallError
  eresult_failed : Bytes → CallError

-- `Call(ctx, verb, service, method, version, params, &response)` over a world `W`; how the response's
-- JSON text is decoded stands for the type of `response`.
pub record Transport (W : Type 0) : Type 1 where
  pub call :
      (R : Type 0) → Verb → Bytes → Bytes → ℕ → Params → (Bytes → Option R) → Call CallError W R
