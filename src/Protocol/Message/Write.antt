-- ===== src/Protocol/Message/Write.antt =====
-- `Write` of protocol/write.go: the three headers that it puts in front of a body.
use go_steam.Base.{ℕ, ◌%◌, ◌^◌, ◌||◌, Option, none, some, ◌++◌, Bytes, length, ◌==◌, if◌then◌else◌}
use go_steam.Base.Binary.{le_bytes}
use go_steam.Protocol.Message.{
  ProtoHeader, Header, proto_mask, emsg_channel_encrypt_response,
  emsg_service_method_call_from_client_non_authed, emsg_client_hello,
}
use go_steam.Protocol.Message.Protobuf.{HeaderCodec}
use Prim.Native.Nat.{bit_or}

-- `if field == nil { field = 0 }`
zero_if_nil : Option ℕ → Option ℕ
zero_if_nil none = some 0
zero_if_nil (some v) = some v

-- The fields that `Write` fills in before it marshals the header, but for two messages.
unfoldable pub fill_proto : ℕ → ProtoHeader → ProtoHeader
unfolding zero_if_nil
fill_proto emsg p =
    if emsg == emsg_client_hello || emsg == emsg_service_method_call_from_client_non_authed
    then p
    else record p {
      client_session_id = zero_if_nil p.client_session_id;
      steam_id = zero_if_nil p.steam_id;
    }

-- The header of the encryption response.
abbrev pub response_front : Header → Bytes
response_front h = le_bytes 4 h.emsg ++ (le_bytes 8 h.target_job_id ++ le_bytes 8 h.source_job_id)

abbrev pub proto_front : ℕ → Bytes → Bytes
proto_front emsg b = le_bytes 4 (bit_or emsg proto_mask) ++ (le_bytes 4 (length b % 2 ^ 32) ++ b)

-- The header without a protobuf: size 36 in four bytes, version 2, the job ids, the canary 239, the
-- SteamID and the session id.
abbrev pub extended_front : Header → Bytes
extended_front h =
    le_bytes 4 h.emsg
    ++ (le_bytes 4 36
        ++ (le_bytes 2 2
            ++ (le_bytes 8 h.target_job_id
                ++ (le_bytes 8 h.source_job_id
                    ++ (le_bytes 1 239 ++ (le_bytes 8 h.steam_id ++ le_bytes 4 h.session_id))))))

-- The header's bytes, or none if the protobuf cannot be marshalled.
unfoldable pub front : HeaderCodec → Header → Option Bytes
front codec h =
    if h.emsg == emsg_channel_encrypt_response then some (response_front h) else elim h.proto [
      | none ↦ some (extended_front h)
      | some p ↦ elim (codec.marshal (fill_proto h.emsg p)) [
        | none ↦ none
        | some b ↦ some (proto_front h.emsg b)
      ]
    ]
