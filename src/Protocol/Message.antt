-- ===== src/Protocol/Message.antt =====
-- The data of the package protocol: `Header` of protocol/protocol.go, the message numbers that the
-- code names (language/steam/enums_clientserver.pb.go), and the errors of reading and writing.
pub mod Protobuf
pub mod Read
pub mod Write
pub mod RoundTrip
pub mod Layouts
use go_steam.Base.{ℕ, ◌-◌, ◌^◌, Option, none, some, Bytes}
use go_steam.Base.Binary.{ReadError}

-- The fields of `CMsgProtoBufHeader` that the package reads or sets; a nil pointer is none. An int32
-- is the natural number of its 32 bits. `others` stands for the fields that are carried along.
pub record ProtoHeader : Type 0 where
  pub steam_id : Option ℕ
  pub client_session_id : Option ℕ
  pub job_id_source : Option ℕ
  pub job_id_target : Option ℕ
  pub others : Bytes

pub record Header : Type 0 where
  pub emsg : ℕ
  pub proto : Option ProtoHeader
  pub target_job_id : ℕ
  pub source_job_id : ℕ
  pub steam_id : ℕ
  pub session_id : ℕ

-- `&Header{EMsg: emsg}`
abbrev pub new_header : ℕ → Header
new_header e = record {
  emsg = e;
  proto = none;
  target_job_id = 0;
  source_job_id = 0;
  steam_id = 0;
  session_id = 0;
}

abbrev pub job_id_none : ℕ
job_id_none = 18446744073709551615

abbrev pub proto_mask : ℕ
proto_mask = 2 ^ 31

abbrev pub emsg_multi : ℕ
emsg_multi = 1

abbrev pub emsg_client_heart_beat : ℕ
emsg_client_heart_beat = 703

abbrev pub emsg_client_log_on_response : ℕ
emsg_client_log_on_response = 751

abbrev pub emsg_channel_encrypt_request : ℕ
emsg_channel_encrypt_request = 1303

abbrev pub emsg_channel_encrypt_response : ℕ
emsg_channel_encrypt_response = 1304

abbrev pub emsg_channel_encrypt_result : ℕ
emsg_channel_encrypt_result = 1305

abbrev pub emsg_client_item_announcements : ℕ
emsg_client_item_announcements = 5576

abbrev pub emsg_client_request_item_announcements : ℕ
emsg_client_request_item_announcements = 5577

abbrev pub emsg_client_user_notifications : ℕ
emsg_client_user_notifications = 5599

abbrev pub emsg_service_method_call_from_client_non_authed : ℕ
emsg_service_method_call_from_client_non_authed = 9804

abbrev pub emsg_client_hello : ℕ
emsg_client_hello = 9805

-- The value whose `binary.Read` failed.
pub data Field : Type 0 where
  message_type header_length target_job source_job header_size header_version canary : Field
  header_steam_id header_session_id padding protocol_field universe_field eresult_field : Field
  sub_size sub_data : Field

pub data MessageError : Type 0 where
  read_failed : Field → ReadError → MessageError
  header_data_missing header_data_incomplete header_invalid header_too_short : MessageError
  unsupported_header_size : ℕ → MessageError
