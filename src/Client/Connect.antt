-- ===== src/Client/Connect.antt =====
-- `Connect`, `connect` and `Disconnect` (client/connection.go).
pub mod Laws
pub mod Keeps
pub mod Rounds
pub mod Handshake
use go_steam.Base.{
  ℕ, Bool, true, false, Option, none, some, [], ◌∷◌, List, Bytes, codes, if◌then◌else◌,
}
use go_steam.Base.Results.{Result, ok, err}
use go_steam.Base.Effects.{Call, ◌>>=◌, ◌>>◌, fail, wrap_call}
use go_steam.Api.Params.{CmServer}
use go_steam.Api.Transport.{Transport}
use go_steam.Api.Services.{Decoders, get_cm_list_for_connect}
use go_steam.Connection.Dial.{Dialer}
use go_steam.Protocol.Message.{ProtoHeader, Header, new_header, job_id_none}
use go_steam.Protocol.State.{Protocol, ProtocolError, Event, new_protocol}
use go_steam.Protocol.Handlers.{Outside, send}
use go_steam.Protocol.Dispatch as Dispatch
use go_steam.Protocol.OverTcp.{Socket}
use go_steam.Identity.Session.{Identity}
use go_steam.Client.{
  ServerError, Client, ClientCall, ClientError, ClientEvent, list_error, no_servers,
  empty_connection, nil_protocol, attempts_exhausted, connection_error, protocol_error,
  attempt_failed, emit, hand_over, identity,
}
use go_steam.Client.Servers.{Dialing, dial_servers}

-- What is given to the two APIs, the channel, the protocol and the sort of the package slices.
pub record Setting (W : Type 0) : Type 1 where
  pub transport : Transport W
  pub decoders : Decoders
  pub dial : Dialer W
  pub sort_by_load : List CmServer → List CmServer
  pub ready : ℕ → Bool
  pub out : Outside Socket

-- When another goroutine calls `Disconnect` in an attempt: not at all, before `connect` sets the
-- protocol, when `Run` has read a number of packets, or when the attempt is over.
pub data Moment : Type 0 where
  never early late : Moment
  running : ℕ → Moment

module _ {W : Type 0} (s : Setting W) where
  open s use {transport, decoders, dial, sort_by_load, ready, out}

  unfoldable pub opened :
      Option ServerError
      → Option Socket
      → Client
      → W
      → Result ClientError (Protocol Socket) × (Client × W)
  opened (some e) conn c w = (err (connection_error e), (c, w))
  opened none none c w = (err empty_connection, (record c { protocol = none }, w))
  opened none (some socket) c w =
      (ok (new_protocol socket), (record c { protocol = some (new_protocol socket) }, w))

  -- The check of `err`, and `c.protocol, err = protocol.NewProtocol(conn, incoming)`.
  unfoldable pub open_protocol :
      Dialing × W → Client → Result ClientError (Protocol Socket) × (Client × W)
  open_protocol (d, w) c = opened d.err_ d.conn c w

  -- The servers are sorted by their load, then dialled.
  unfoldable pub reach_server : List CmServer → ClientCall W (Protocol Socket)
  reach_server [] (c, w) = (err no_servers, (c, w))
  reach_server (server ∷ servers) (c, w) =
      open_protocol
        (dial_servers dial (sort_by_load (server ∷ servers))
          (record { conn = none; err_ = none }, w))
        c

  keep_client :
      {A : Type 0} → Client → Result ClientError A × W → Result ClientError A × (Client × W)
  keep_client c (r, w) = (r, (c, w))

  list_servers : ClientCall W (List CmServer)
  list_servers (c, w) = keep_client c (
      wrap_call list_error
        (get_cm_list_for_connect transport decoders (record {
          cell_id = 0;
          cm_type = codes "netfilter";
          realm = codes "steamglobal";
          max_count = 0;
        }))
        w)

  pub ran :
      Client
      → W
      → Result ProtocolError (Unit {0}) × Protocol Socket
      → Result ClientError (Unit {0}) × (Client × W)
  ran c w (ok _, h) = (ok tt, (hand_over ready h c, w))
  ran c w (err e, h) = (err (protocol_error e), (hand_over ready h c, w))

  -- `c.protocol.Run(ctx)`, for messages packed `depth` deep and `rounds` packets.
  run_protocol : ℕ → ℕ → Protocol Socket → ClientCall W (Unit {0})
  run_protocol depth rounds h (c, w) = ran c w (Dispatch.run out depth rounds h)

  -- `connect` up to its protocol.
  pub prepare : ClientCall W (Protocol Socket)
  prepare = do _ ← identity; servers ← list_servers; reach_server servers

  -- `connect`
  pub connect_once : ℕ → ℕ → ClientCall W (Unit {0})
  connect_once depth rounds = do h ← prepare; run_protocol depth rounds h

  disconnected : Option (Protocol Socket) → Client → Client
  disconnected none c = c
  disconnected (some h) c = record c { reconnect = false; protocol = some (Dispatch.close out h).1 }

  -- `Disconnect`; what closing the connection returns is left out.
  pub disconnect : Client → Client
  disconnect c = disconnected c.protocol c

  -- The end of a round of `Connect`.
  next_attempt :
      ClientCall W (Unit {0})
      → Result ClientError (Unit {0}) × (Client × W)
      → Result ClientError (Unit {0}) × (Client × W)
  next_attempt rest (ok _, (c, w)) = if c.reconnect then rest (c, w) else (ok tt, (c, w))
  next_attempt rest (err e, (c, w)) =
      if c.reconnect then rest (emit (attempt_failed e) c, w) else (err e, (c, w))

  late_disconnect :
      Result ClientError (Unit {0}) × (Client × W) → Result ClientError (Unit {0}) × (Client × W)
  late_disconnect (r, (c, w)) = (r, (disconnect c, w))

  -- `c.protocol.Run(ctx)`, where `Disconnect` closes the protocol when `k` packets were read, or behind
  -- the end of `Run` if it comes first.
  run_disconnected : ℕ → ℕ → ℕ → Protocol Socket → ClientCall W (Unit {0})
  run_disconnected depth rounds k h (c, w) =
      ran (disconnect c) w (Dispatch.run_closed out depth rounds k h)

  -- An attempt with a call of `Disconnect`. What `connect` does before it sets the protocol reads
  -- neither the protocol nor the flag, so all calls of `Disconnect` before that are the same.
  pub attempt : ℕ → ℕ → Moment → ClientCall W (Unit {0})
  attempt depth rounds never s0 = connect_once depth rounds s0
  attempt depth rounds early (c, w) = connect_once depth rounds (disconnect c, w)
  attempt depth rounds (running k) s0 = (prepare >>= λ h. run_disconnected depth rounds k h) s0
  attempt depth rounds late s0 = late_disconnect (connect_once depth rounds s0)

  -- `Connect`: an attempt for each element of the list, which says when another goroutine calls
  -- `Disconnect` in it.
  pub connect : ℕ → ℕ → List Moment → ClientCall W (Unit {0})
  connect depth rounds [] (c, w) = (err attempts_exhausted, (c, w))
  connect depth rounds (moment ∷ moments) s0 =
      next_attempt (connect depth rounds moments) (attempt depth rounds moment s0)
