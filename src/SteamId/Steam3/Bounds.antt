-- ===== src/SteamId/Steam3/Bounds.antt =====
-- The SteamIDs that `FromSteam3` gives.
use go_steam.Base.{◌^◌, ◌<◌, ◌≡◌, Bytes}
use go_steam.Base.Results.{ok, or_err, bind-Gives, Gives-ok}
use go_steam.SteamId.{SteamId}
use go_steam.SteamId.Laws.{new_steam_id-lt}
use go_steam.Base.Decimal.{parse_uint}
use go_steam.SteamId.Errors.{steam3_format, steam3_universe, steam3_number}
use go_steam.SteamId.Patterns.{steam3_submatch}
use go_steam.SteamId.Steam3.{from_steam3}

pub from_steam3_lt : (s : Bytes) (sid : SteamId) → from_steam3 s ≡ ok sid → sid < 2 ^ 60
unfolding from_steam3
from_steam3_lt s sid h =
    Gives-ok (λ n. n < 2 ^ 60) _ sid
      (bind-Gives (λ n. n < 2 ^ 60) (or_err (steam3_submatch s) steam3_format) _
        (λ m.
          bind-Gives (λ n. n < 2 ^ 60) (or_err (parse_uint 8 m.universe) steam3_universe) _
            (λ universe.
              bind-Gives (λ n. n < 2 ^ 60) (or_err (parse_uint 32 m.number) steam3_number) _
                (λ id. new_steam_id-lt _ _ _ _))))
      h
