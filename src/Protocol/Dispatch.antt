-- ===== src/Protocol/Dispatch.antt =====
-- `handleMessage`, `readMessage`, `Run` and `Close` (protocol/handlers.go, read.go, protocol.go).
pub mod Laws
pub mod Depth
pub mod Run
pub mod Report
use go_steam.Base.{
  ℕ, zero, suc, Bool, Option, none, some, [], ◌∷◌, ◌++◌, List, Bytes, ◌==◌, if◌then◌else◌,
}
use go_steam.Base.Results.{Result, ok, err, wrap_err}
use go_steam.Protocol.Message.{
  Header, emsg_channel_encrypt_request, emsg_channel_encrypt_result, emsg_client_log_on_response,
  emsg_multi, emsg_client_item_announcements, emsg_client_user_notifications,
}
use go_steam.Protocol.Message.Read.{read_front}
use go_steam.Protocol.State.{
  message_received, Connection, Protocol, ProtocolError, message_error, read_failed_, too_deep, M,
  ◌>>=◌, ◌>>◌, pure, fail, lift, get, modify, offer,
}
use go_steam.Protocol.Handlers.{
  Outside, handle_channel_encrypt_request, handle_channel_encrypt_result,
  handle_client_log_on_response, handle_client_item_announcements, handle_client_user_notifications,
}
use go_steam.Protocol.Multi.{handle_multi}

module _ {C : Type 0} (out : Outside C) where
  -- The switch of `handleMessage`; `next` reads a message that is packed in another one.
  dispatch : (Bytes → M C (Unit {0})) → Header → Bytes → M C (Unit {0})
  dispatch next header body =
      if header.emsg == emsg_channel_encrypt_request
      then handle_channel_encrypt_request out header body
      else if header.emsg == emsg_channel_encrypt_result
      then handle_channel_encrypt_result out body
      else if header.emsg == emsg_client_log_on_response
      then handle_client_log_on_response out header body
      else if header.emsg == emsg_multi
      then handle_multi next out body
      else if header.emsg == emsg_client_item_announcements
      then handle_client_item_announcements out body
      else if header.emsg == emsg_client_user_notifications
      then handle_client_user_notifications out body
      else pure tt

  pub handle_message : (Bytes → M C (Unit {0})) → Header → Bytes → M C (Unit {0})
  handle_message next header body =
      offer out.ready (message_received header.emsg header) >> dispatch next header body

  -- `readMessage`, for messages that are packed into each other at most `depth` deep. The code has no
  -- such bound.
  pub read_message : ℕ → Bytes → M C (Unit {0})
  read_message zero r = fail too_deep
  read_message (suc depth) r = do
    (header, body) ← lift (wrap_err message_error (read_front out.codec r))
    handle_message (read_message depth) header body

  -- `h.connection.Read`.
  read_packet : M C (Option Bytes)
  read_packet h =
      let (result, c) = out.link.read h.connection in
      (wrap_err (λ _. read_failed_) result, record h { connection = c })

  -- `Run`, for at most `rounds` packets.
  pub run : ℕ → ℕ → M C (Unit {0})
  run depth zero = fail too_deep
  run depth (suc rounds) = read_packet >>= λ packet. elim packet [
    | none ↦ pure tt
    | some r ↦ read_message depth r >> run depth rounds
  ]

  -- `Close`: the heartbeat stops, then the connection is closed.
  pub close : M C (Unit {0})
  close = do
    modify (λ h. record h { heartbeat = none })
    modify (λ h. record h { connection = out.link.close h.connection })

  closed_after :
      Result ProtocolError (Unit {0}) × Protocol C → Result ProtocolError (Unit {0}) × Protocol C
  closed_after (r, h) = (r, (close h).1)

  handled_then :
      (Protocol C → Result ProtocolError (Unit {0}) × Protocol C)
      → Result ProtocolError (Unit {0}) × Protocol C
      → Result ProtocolError (Unit {0}) × Protocol C
  handled_then rest (ok _, h) = rest h
  handled_then rest (err e, h) = closed_after (err e, h)

  packet_then :
      ℕ
      → (Protocol C → Result ProtocolError (Unit {0}) × Protocol C)
      → Result ProtocolError (Option Bytes) × Protocol C
      → Result ProtocolError (Unit {0}) × Protocol C
  packet_then depth rest (ok (some r), h) = handled_then rest (read_message depth r h)
  packet_then depth rest (ok none, h) = closed_after (ok tt, h)
  packet_then depth rest (err e, h) = closed_after (err e, h)

  -- `Run`, while another goroutine calls `Close` when `k` packets were read, or behind its end.
  pub run_closed : ℕ → ℕ → ℕ → M C (Unit {0})
  run_closed depth rounds zero h = run depth rounds (close h).1
  run_closed depth zero (suc k) h = closed_after (err too_deep, h)
  run_closed depth (suc rounds) (suc k) h =
      packet_then depth (run_closed depth rounds k) (read_packet h)
