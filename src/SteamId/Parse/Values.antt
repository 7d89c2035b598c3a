-- ===== src/SteamId/Parse/Values.antt =====
-- The conversions of steamid/steamid.go around parsing and printing, the Must variants, which panic on
-- an error, and JSON, where encoding/json on a text is an argument.
use go_steam.Base.{ℕ, ◌^◌, ◌≤◌, ◌<◌, Option, none, some, [], ◌∷◌, ◌++◌, List, Bytes, ◌≡◌, ◌⊎◌, ◌≢◌}
use go_steam.Base.Results.{Result, ok, err}
use go_steam.SteamId.{
  SteamId, account_universe, account_type, account_instance, type_individual, universe_public,
}
use go_steam.SteamId.Errors.{ParseError}
use go_steam.SteamId.Steam2.{from_steam2}
use go_steam.SteamId.Steam3.{from_steam3}
use go_steam.SteamId.Steam64.{from_steam64, to_steam64}
use go_steam.SteamId.Parse.{from_string, string, from_string-string, unmarshal_json}

from_uint64 : ℕ → SteamId
from_uint64 n = n

uint64 : SteamId → ℕ
uint64 sid = sid

-- `if err != nil { panic(err) }`, where no result is the panic.
or_panic : Result ParseError SteamId → Option SteamId
or_panic (ok sid) = some sid
or_panic (err e) = none

must_from_string : Bytes → Option SteamId
must_from_string input = or_panic (from_string input)

must_from_steam2 : Bytes → Option SteamId
must_from_steam2 input = or_panic (from_steam2 input)

must_from_steam3 : Bytes → Option SteamId
must_from_steam3 input = or_panic (from_steam3 input)

must_from_steam64 : Bytes → Option SteamId
must_from_steam64 input = or_panic (from_steam64 input)

-- `EncodeValues`, on the values as pairs of a key and a text.
encode_values : SteamId → Bytes → List (Bytes × Bytes) → List (Bytes × Bytes)
encode_values sid key v = v ++ (key, to_steam64 sid) ∷ []

marshal_json : (Bytes → Option Bytes) → SteamId → Option Bytes
marshal_json marshal_string sid = marshal_string (string sid)

-- A JSON text is read back as the SteamID that it was made of, if that has a named universe and no
-- unused bits, and is a public individual account of the instance 1 or no individual account; and if
-- encoding/json reads the text of a string as that string and not as a number.
unmarshal_json-marshal_json :
    (marshal_string : Bytes → Option Bytes) (number_of : Bytes → Option ℕ)
    (string_of : Bytes → Option Bytes) (sid : SteamId) (bs : Bytes)
    → ((s t : Bytes) → marshal_string s ≡ some t → (number_of t ≡ none) × (string_of t ≡ some s))
    → sid < 2 ^ 60
    → 1 ≤ account_universe sid
    → account_universe sid ≤ 5
    → ((account_type sid ≡ type_individual)
        × (account_universe sid ≡ universe_public)
        × (account_instance sid ≡ 1))
      ⊎ (account_type sid ≢ type_individual)
    → marshal_json marshal_string sid ≡ some bs
    → unmarshal_json (number_of bs) (string_of bs) ≡ ok sid
unfolding marshal_json unmarshal_json
unmarshal_json-marshal_json marshal_string number_of string_of sid bs json fits lo hi kind h =
    let (no_number, text) = json (string sid) bs h in
    rw (no_number, text) (from_string-string sid fits lo hi kind)
