-- ===== src/SteamId/Steam2/Bounds.antt =====
-- The SteamIDs that `FromSteam2` gives.
use go_steam.Base.{◌^◌, ◌<◌, ◌≡◌, Bytes}
use go_steam.Base.Results.{ok, or_err, bind-Gives, Gives-ok}
use go_steam.SteamId.{SteamId}
use go_steam.SteamId.Laws.{new_steam_id-lt}
use go_steam.Base.Decimal.{parse_uint}
use go_steam.SteamId.Errors.{steam2_format, steam2_universe, steam2_server, steam2_number}
use go_steam.SteamId.Patterns.{steam2_submatch}
use go_steam.SteamId.Steam2.{from_steam2, steam2_id}

pub from_steam2_lt : (s : Bytes) (sid : SteamId) → from_steam2 s ≡ ok sid → sid < 2 ^ 60
unfolding from_steam2 steam2_id
from_steam2_lt s sid h =
    Gives-ok (λ n. n < 2 ^ 60) _ sid
      (bind-Gives (λ n. n < 2 ^ 60) (or_err (steam2_submatch s) steam2_format) _
        (λ m.
          bind-Gives (λ n. n < 2 ^ 60) (or_err (parse_uint 7 m.universe) steam2_universe) _
            (λ universe.
              bind-Gives (λ n. n < 2 ^ 60) (or_err (parse_uint 32 m.server) steam2_server) _
                (λ server.
                  bind-Gives (λ n. n < 2 ^ 60) (or_err (parse_uint 32 m.number) steam2_number) _
                    (λ number. new_steam_id-lt _ _ _ _)))))
      h
