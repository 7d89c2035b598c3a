-- ===== src/Protocol/Handlers.antt =====
-- protocol/write.go and protocol/handlers.go but for `handleMulti`, and protocol/heartbeat.go but
-- for the goroutine, whose tick is `heartbeat_tick`.
use go_steam.Base.{
  ℕ, ◌-◌, ◌%◌, ◌^◌, Bool, Option, none, some, [], ◌∷◌, ◌++◌, List, Bytes, length, replicate, ◌==◌,
}
use go_steam.Base.Binary.{le_bytes, read_le}
use go_steam.Base.Results.{Result, ok, err, guard, or_err, wrap_err}
use go_steam.Crypto.SessionKey.{generate_session_key}
use go_steam.Protocol.Message.{
  ProtoHeader, Header, new_header, job_id_none, emsg_channel_encrypt_response,
  emsg_client_request_item_announcements, emsg_client_heart_beat, read_failed, protocol_field,
  universe_field, eresult_field, Field,
}
use go_steam.Protocol.Message.Protobuf.{HeaderCodec, get_steam_id, get_client_session_id}
use go_steam.Protocol.Message.Read.{reader_read}
use go_steam.Protocol.Message.Write.{front}
use go_steam.Protocol.State.{
  message_sent, connected, logged_on, item_announcements, user_notification, failed, Connection,
  Protocol, ProtocolError, message_error, unsupported_protocol, unsupported_universe,
  encrypt_failed, log_on_failed, nonce_missing, session_key_failed, body_invalid, nil_heartbeat,
  ticker_panic, is_positive, marshal_failed, send_failed, M, ◌>>=◌, ◌>>◌, pure, lift, get, modify,
  emit, offer,
}

-- The fields that the handlers read of `CMsgClientLogonResponse` and `CMsgMulti`. The getter of the
-- result gives 2 for a nil field.
pub record LogonResponse : Type 0 where
  pub eresult : ℕ
  pub heartbeat_seconds : Option ℕ

pub record MultiBody : Type 0 where
  pub size_unzipped : ℕ
  pub message_body : Bytes

-- What lies outside the package: the connection, the readiness of the event channel, the random
-- source, RSA, CRC-32, gzip, and protobuf with the bodies of two messages without fields.
pub record Outside (C : Type 0) : Type 0 where
  pub link : Connection C
  pub codec : HeaderCodec
  pub ready : ℕ → Bool
  pub rand : ℕ → Option Bytes
  pub encrypt_oaep : Bytes → Option Bytes
  pub crc32 : Bytes → ℕ
  pub gunzip : Bytes → Option Bytes
  pub unmarshal_logon : Bytes → Option LogonResponse
  pub unmarshal_multi : Bytes → Option MultiBody
  pub unmarshal_announcements : Bytes → Option ℕ
  pub unmarshal_notifications : Bytes → Option (List (ℕ × ℕ))
  pub announcements_request : Option Bytes
  pub heart_beat : Option Bytes

-- The body of the encryption response: protocol, the key with its length and checksum, the nonce.
abbrev pub response_body : (Bytes → ℕ) → ℕ → Bytes → Bytes → Bytes
response_body crc32 protocol encrypted nonce =
    le_bytes 4 protocol
    ++ (le_bytes 4 (length encrypted % 2 ^ 32)
        ++ (encrypted ++ (le_bytes 4 (crc32 encrypted) ++ nonce)))

-- `make([]byte, 16)` with what `Read` put there.
abbrev pub nonce_of : Bytes → Bytes
nonce_of bs = bs ++ replicate (16 - length bs) 0

module _ {C : Type 0} (out : Outside C) where
  open out use {
    link, codec, ready, rand, encrypt_oaep, crc32, unmarshal_logon, unmarshal_announcements,
    unmarshal_notifications, announcements_request, heart_beat,
  }

  -- `h.connection.Send`.
  unfoldable pub send_packet : Bytes → M C (Unit {0})
  send_packet bs h =
      let (result, c) = link.send h.connection bs in
      (wrap_err (λ _. send_failed) result, record h { connection = c })

  unfoldable pub write : Header → Bytes → M C (Unit {0})
  write header body = do
    wire ← lift (or_err (front codec header) marshal_failed)
    send_packet (wire ++ body)

  -- `Send`, with the marshalled body.
  unfoldable pub send : Header → Option Bytes → M C (Unit {0})
  send header body = do
    offer ready (message_sent header.emsg header)
    b ← lift (or_err body marshal_failed)
    write header b

  -- `binary.Read` of a uint32 of the body.
  abbrev pub read_u32 : Field → Bytes → M C (ℕ × Bytes)
  read_u32 field r = lift (wrap_err (λ e. message_error (read_failed field e)) (read_le 4 r))

  -- The end of `handleChannelEncryptRequest`, from the session key on.
  unfoldable pub respond : Header → ℕ → Bytes → M C (Unit {0})
  respond header protocol nonce = do
    (plain, encrypted) ←
        lift (wrap_err (λ _. session_key_failed) (generate_session_key rand encrypt_oaep))
    modify (λ h. record h { session_key = plain })
    write
        (record (new_header emsg_channel_encrypt_response) {
          target_job_id = header.target_job_id;
          source_job_id = header.source_job_id;
        })
        (response_body crc32 protocol encrypted nonce)

  unfoldable pub handle_channel_encrypt_request : Header → Bytes → M C (Unit {0})
  handle_channel_encrypt_request header body = do
    (protocol, r1) ← read_u32 protocol_field body
    lift (guard (protocol == 1) (unsupported_protocol protocol))
    (universe, r2) ← read_u32 universe_field r1
    lift (guard (universe == 1) (unsupported_universe universe))
    (bs, _) ← lift (or_err (reader_read 16 r2) nonce_missing)
    respond header protocol (nonce_of bs)

  unfoldable pub handle_channel_encrypt_result : Bytes → M C (Unit {0})
  handle_channel_encrypt_result body = do
    (eresult, _) ← read_u32 eresult_field body
    lift (guard (eresult == 1) (encrypt_failed eresult))
    modify (λ h. record h {
      connection = link.set_session_key h.connection h.session_key;
      session_key = [];
    })
    emit connected

  -- `startHeartbeat`: the heartbeat that runs is stopped, and one with the interval runs. If the interval
  -- is not positive, the goroutine panics, which ends the program.
  unfoldable pub start_heartbeat : ℕ → M C (Unit {0})
  start_heartbeat seconds = do
    lift (guard (is_positive seconds) ticker_panic)
    modify (λ h. record h { heartbeat = some seconds })

  -- The protobuf header of a message of the session.
  abbrev pub session_header : Protocol C → ProtoHeader
  session_header h = record {
    steam_id = some h.steam_id;
    client_session_id = some h.session_id;
    job_id_source = none;
    job_id_target = none;
    others = [];
  }

  -- What the heartbeat's goroutine sends at each tick.
  send_heartbeat : M C (Unit {0})
  send_heartbeat = do
    h ← get
    send
        (record (new_header emsg_client_heart_beat) {
          proto = some (record (session_header h) {
            job_id_source = some job_id_none;
            job_id_target = some job_id_none;
          });
        })
        heart_beat

  -- An error of a call becomes an event.
  report :
      Result ProtocolError (Unit {0}) × Protocol C → Result ProtocolError (Unit {0}) × Protocol C
  report (ok _, h) = (ok tt, h)
  report (err e, h) = emit (failed e) h

  -- A tick of the heartbeat.
  heartbeat_tick : M C (Unit {0})
  heartbeat_tick h = report (send_heartbeat h)

  -- `GetSteamid` and `GetClientSessionid` on a header that may be nil.
  abbrev pub steam_id_of : Option ProtoHeader → ℕ
  steam_id_of none = 0
  steam_id_of (some p) = get_steam_id p

  abbrev pub session_id_of : Option ProtoHeader → ℕ
  session_id_of none = 0
  session_id_of (some p) = get_client_session_id p

  unfoldable pub handle_client_log_on_response : Header → Bytes → M C (Unit {0})
  handle_client_log_on_response header body = do
    resp ← lift (or_err (unmarshal_logon body) body_invalid)
    lift (guard (resp.eresult == 1) (log_on_failed resp.eresult))
    seconds ← lift (or_err resp.heartbeat_seconds nil_heartbeat)
    start_heartbeat seconds
    modify (λ h. record h {
      steam_id = steam_id_of header.proto;
      session_id = session_id_of header.proto;
    })
    emit (logged_on (steam_id_of header.proto) (session_id_of header.proto))
    h ← get
    send
        (record (new_header emsg_client_request_item_announcements) {
          proto = some (session_header h);
        })
        announcements_request

  unfoldable pub handle_client_item_announcements : Bytes → M C (Unit {0})
  handle_client_item_announcements body = do
    count ← lift (or_err (unmarshal_announcements body) body_invalid)
    offer ready (item_announcements count)

  -- The loop over the notifications.
  unfoldable pub offer_notifications : List (ℕ × ℕ) → M C (Unit {0})
  offer_notifications [] = pure tt
  offer_notifications ((kind, count) ∷ rest) =
      offer ready (user_notification kind count) >> offer_notifications rest

  unfoldable pub handle_client_user_notifications : Bytes → M C (Unit {0})
  handle_client_user_notifications body = do
    notifications ← lift (or_err (unmarshal_notifications body) body_invalid)
    offer_notifications notifications
