-- ===== src/SteamId/Errors.antt =====
-- The errors of the package steamid, one constructor for each message that names its own cause.
pub data ParseError : Type 0 where
  -- ErrInvalidSteam2
  steam2_format steam2_universe steam2_server steam2_number : ParseError
  -- ErrInvalidSteam3
  steam3_format steam3_universe steam3_number : ParseError
  -- ErrInvalidSteam64
  steam64_format steam64_range : ParseError
  -- "invalid SteamID format", and "invalid SteamID" of `UnmarshalJSON`
  unknown_format not_a_steam_id : ParseError
