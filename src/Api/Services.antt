-- ===== src/Api/Services.antt =====
-- The methods of the services (api/services): each names its verb, service, method and version.
use go_steam.Base.{ℕ, Option, [], ◌++◌, List, map, Bytes, codes, length, ◌==◌, if◌then◌else◌}
use go_steam.Base.Decimal.{format_uint}
use go_steam.Base.Results.{Result, ok, err}
use go_steam.Base.Effects.{Call, ◌>>=◌, pure, lift, wrap_call}
use go_steam.Api.Params.{
  BeginParameters, BeginResponse, TokenParameters, TokenResponse, RsaKeyParameters, RsaKeyResponse,
  PollParameters, PollResponse, RevokeParameters, GuardCodeParameters, ServerListParameters,
  CmServer, ServerListResponse, TradeOffersParameters, TradeOffersResponse, OwnedGamesParameters,
  OwnedGame, OwnedGamesResponse, no_params, begin_params, token_params, rsa_key_params, poll_params,
  revoke_params, guard_code_params, server_list_params, trade_offers_params, owned_games_params,
}
use go_steam.Api.Transport.{get, post, CallError, Transport}

-- encoding/json on the response of each method, and on one without fields.
pub record Decoders : Type 0 where
  pub begin_response : Bytes → Option BeginResponse
  pub token_response : Bytes → Option TokenResponse
  pub rsa_key_response : Bytes → Option RsaKeyResponse
  pub poll_response : Bytes → Option PollResponse
  pub empty_response : Bytes → Option (Unit {0})
  pub server_list_response : Bytes → Option ServerListResponse
  pub trade_offers_response : Bytes → Option TradeOffersResponse
  pub owned_games_response : Bytes → Option OwnedGamesResponse
  pub time_response : Bytes → Option ℕ

-- The error of a call, or a list of servers that was refused, with its message.
pub data ServiceError : Type 0 where
  call_failed : CallError → ServiceError
  list_refused : Bytes → ServiceError

-- `if params.Language == "" { params.Language = "en-US" }`
default_language : Bytes → Bytes
default_language language = if length language == 0 then codes "en-US" else language

build_icon_url : ℕ → Bytes → Bytes
build_icon_url app_id hash =
    if length hash == 0
    then []
    else codes "https://media.steampowered.com/steamcommunity/public/images/apps/"
      ++ (format_uint app_id ++ (codes "/" ++ (hash ++ codes ".jpg")))

store_url : ℕ → Bytes → Bytes
store_url app_id asset =
    codes "https://shared.fastly.steamstatic.com/store_item_assets/steam/apps/"
    ++ (format_uint app_id ++ asset)

-- The loop over the games of a response.
with_urls : OwnedGame → OwnedGame
with_urls g = record g {
  game_icon_url = build_icon_url g.app_id g.game_icon_hash;
  game_cover_url = store_url g.app_id (codes "/library_hero.jpg");
  game_logo_url = store_url g.app_id (codes "/logo.png");
}

module _ {W : Type 0} (transport : Transport W) (decoders : Decoders) where
  open decoders use {
    begin_response, token_response, rsa_key_response, poll_response, empty_response,
    server_list_response, trade_offers_response, owned_games_response, time_response,
  }

  abbrev authentication_service : Bytes
  authentication_service = codes "IAuthenticationService"

  pub begin_auth_session_via_credentials : BeginParameters → Call CallError W BeginResponse
  begin_auth_session_via_credentials p =
      transport.call BeginResponse post authentication_service
        (codes "BeginAuthSessionViaCredentials") 1 (begin_params p) begin_response

  generate_access_token_for_app : TokenParameters → Call CallError W TokenResponse
  generate_access_token_for_app p =
      transport.call TokenResponse post authentication_service (codes "GenerateAccessTokenForApp") 1
        (token_params p) token_response

  pub get_password_rsa_public_key : RsaKeyParameters → Call CallError W RsaKeyResponse
  get_password_rsa_public_key p =
      transport.call RsaKeyResponse get authentication_service (codes "GetPasswordRSAPublicKey") 1
        (rsa_key_params p) rsa_key_response

  unfoldable pub poll_auth_session_status : PollParameters → Call CallError W PollResponse
  poll_auth_session_status p =
      transport.call PollResponse post authentication_service (codes "PollAuthSessionStatus") 1
        (poll_params p) poll_response

  revoke_token : RevokeParameters → Call CallError W (Unit {0})
  revoke_token p =
      transport.call (Unit {0}) post authentication_service (codes "RevokeToken") 1
        (revoke_params p) empty_response

  unfoldable pub update_auth_session_with_steam_guard_code :
      GuardCodeParameters → Call CallError W (Unit {0})
  update_auth_session_with_steam_guard_code p =
      transport.call (Unit {0}) post authentication_service
        (codes "UpdateAuthSessionWithSteamGuardCode") 1 (guard_code_params p) empty_response

  pub query_time : Call CallError W ℕ
  query_time =
      transport.call ℕ post (codes "ITwoFactorService") (codes "QueryTime") 1 no_params
        time_response

  -- A response that was no success is an error with its message.
  unfoldable pub checked_list : ServerListResponse → Result ServiceError (List CmServer)
  checked_list res = if res.success then ok res.server_list else err (list_refused res.message)

  unfoldable pub get_cm_list_for_connect :
      ServerListParameters → Call ServiceError W (List CmServer)
  get_cm_list_for_connect p =
      wrap_call call_failed (
        transport.call ServerListResponse get (codes "ISteamDirectory")
          (codes "GetCMListForConnect") 1 (server_list_params p) server_list_response)
      >>= λ res. lift (checked_list res)

  get_trade_offers : TradeOffersParameters → Call CallError W TradeOffersResponse
  get_trade_offers p =
      transport.call TradeOffersResponse get (codes "IEconService") (codes "GetTradeOffers") 1
        (trade_offers_params (record p { language = default_language p.language }))
        trade_offers_response

  get_owned_games : OwnedGamesParameters → Call CallError W OwnedGamesResponse
  get_owned_games p =
      transport.call OwnedGamesResponse get (codes "IPlayerService") (codes "GetOwnedGames") 1
        (owned_games_params (record p { language = default_language p.language }))
        owned_games_response
      >>= λ res. pure (record res { games = map with_urls res.games })
