-- ===== src/Api/Params.antt =====
-- The parameters and the responses of the Web API's methods (api/services): structs with their
-- fields. A struct of responses whose fields the program does not use keeps those it does.
use go_steam.Base.{ℕ, Bool, List, Bytes}
use go_steam.SteamId.{SteamId}

-- iauthenticationservice
pub record DeviceDetails : Type 0 where
  pub device_friendly_name : Bytes
  pub platform_type : ℕ
  pub os_type : ℕ
  pub gaming_device_type : ℕ
  pub client_count : ℕ
  pub machine_id : Bytes

pub record BeginParameters : Type 0 where
  pub device_friendly_name : Bytes
  pub account_name : Bytes
  pub encrypted_password : Bytes
  pub encryption_timestamp : ℕ
  pub remember_login : Bool
  pub platform_type : ℕ
  pub persistence : ℕ
  pub website_id : Bytes
  pub device_details : DeviceDetails
  pub guard_data : Bytes
  pub language : ℕ
  pub qos_level : ℕ

pub record AllowedConfirmation : Type 0 where
  pub confirmation_type : ℕ
  pub associated_message : Bytes

pub record BeginResponse : Type 0 where
  pub client_id : ℕ
  pub request_id : Bytes
  pub interval : ℕ
  pub allowed_confirmations : List AllowedConfirmation
  pub steam_id : SteamId
  pub extended_error_message : Bytes

pub record TokenParameters : Type 0 where
  pub steam_id : SteamId
  pub refresh_token : Bytes
  pub renewal_type : ℕ

pub record TokenResponse : Type 0 where
  pub access_token : Bytes
  pub refresh_token : Bytes

pub record RsaKeyParameters : Type 0 where
  pub account_name : Bytes

pub record RsaKeyResponse : Type 0 where
  pub public_key_mod : Bytes
  pub public_key_exp : Bytes
  pub timestamp : ℕ

pub record PollParameters : Type 0 where
  pub client_id : ℕ
  pub request_id : Bytes
  pub token_to_revoke : ℕ

pub record PollResponse : Type 0 where
  pub new_client_id : Bytes
  pub new_challenge_url : Bytes
  pub refresh_token : Bytes
  pub access_token : Bytes
  pub had_remote_interaction : Bool
  pub account_name : Bytes
  pub new_guard_data : Bytes
  pub agreement_session_url : Bytes

pub record RevokeParameters : Type 0 where
  pub token : Bytes
  pub revoke_action : ℕ

pub record GuardCodeParameters : Type 0 where
  pub client_id : ℕ
  pub steam_id : SteamId
  pub code_ : Bytes
  pub code_type : ℕ

-- isteamdirectory
pub record ServerListParameters : Type 0 where
  pub cell_id : ℕ
  pub cm_type : Bytes
  pub realm : Bytes
  pub max_count : ℕ

-- The load is not negative; the weighted load, a float, is left out.
pub record CmServer : Type 0 where
  pub endpoint : Bytes
  pub legacy_endpoint : Bytes
  pub type_ : Bytes
  pub dc : Bytes
  pub realm : Bytes
  pub load : ℕ

pub record ServerListResponse : Type 0 where
  pub success : Bool
  pub message : Bytes
  pub server_list : List CmServer

-- ieconservice
pub record TradeOffersParameters : Type 0 where
  pub access_token : Bytes
  pub api_key : Bytes
  pub language : Bytes
  pub get_sent_offers : Bool
  pub get_received_offers : Bool
  pub get_descriptions : Bool
  pub active_only : Bool
  pub time_historical_cutoff : ℕ
  pub historical_only : Bool

pub record TradeOfferItem : Type 0 where
  pub app_id : ℕ
  pub context_id : Bytes
  pub asset_id : Bytes
  pub class_id : Bytes
  pub instance_id : Bytes
  pub amount : Bytes
  pub missing : Bool
  pub est_usd : Bytes

pub record TradeOffer : Type 0 where
  pub id : Bytes
  pub state : ℕ
  pub eresult : ℕ
  pub message : Bytes
  pub counterparty : SteamId
  pub confirmation_method : ℕ
  pub items_to_give : List TradeOfferItem
  pub items_to_receive : List TradeOfferItem
  pub is_our_offer : Bool
  pub from_real_time_trade : Bool
  pub created_at : ℕ
  pub updated_at : ℕ
  pub expires_at : ℕ
  pub settles_at : ℕ
  pub escrow_ends_at : ℕ

pub record TradeOffersResponse : Type 0 where
  pub sent : List TradeOffer
  pub received : List TradeOffer
  pub next_cursor : ℕ

-- iplayerservice
pub record OwnedGamesParameters : Type 0 where
  pub api_key : Bytes
  pub steam_id : ℕ
  pub include_app_info : Bool
  pub include_played_free_games : Bool
  pub app_ids_filter : List ℕ
  pub include_free_sub : Bool
  pub language : Bytes

-- The fields that the program reads or writes; `others` stands for the rest.
pub record OwnedGame : Type 0 where
  pub app_id : ℕ
  pub name : Bytes
  pub game_icon_hash : Bytes
  pub game_icon_url : Bytes
  pub game_cover_url : Bytes
  pub game_logo_url : Bytes
  pub others : Bytes

pub record OwnedGamesResponse : Type 0 where
  pub game_count : ℕ
  pub games : List OwnedGame

-- What a call of the transport is given as parameters: nil, or one of the structs.
pub data Params : Type 0 where
  no_params : Params
  begin_params : BeginParameters → Params
  token_params : TokenParameters → Params
  rsa_key_params : RsaKeyParameters → Params
  poll_params : PollParameters → Params
  revoke_params : RevokeParameters → Params
  guard_code_params : GuardCodeParameters → Params
  server_list_params : ServerListParameters → Params
  trade_offers_params : TradeOffersParameters → Params
  owned_games_params : OwnedGamesParameters → Params
