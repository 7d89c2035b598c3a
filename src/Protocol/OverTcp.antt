-- ===== src/Protocol/OverTcp.antt =====
-- The connection of connection/tcp.go behind the interface `Connection` of protocol/protocol.go, with
-- no deadline and no fault of a write: the encryption handshake from one end to the other.
pub mod Run
pub mod Tests
use go_steam.Base.{
  ℕ, zero, suc, ◌≤◌, ◌<◌, ◌^◌, ◌≡◌, refl, ap, ◌∙◌, sym, Bool, true, false, Option, none, some, [],
  ◌∷◌, ◌++◌, Bytes, length, arith, ◌==◌, if◌then◌else◌,
}
use go_steam.Base.Results.{Result, ok, err, wrap_err}
use go_steam.Crypto.Primitives.{Primitives}
use go_steam.Connection.State as ConnectionState
use go_steam.Connection.State.{
  TcpConnection, connected_encrypted, new_tcp_connection, set_session_key, set_session_key_set,
  encrypted_state,
}
use go_steam.Connection.Network.{Incoming}
use go_steam.Connection.Tcp.{TcpError, Packet, shutdown, packet, background}
use go_steam.Connection.Tcp as Tcp
use go_steam.Protocol.State.{Connection, Protocol}
use go_steam.Protocol.Handlers.{Outside, send_packet}
use go_steam.Protocol.Dispatch.{read_message}
use go_steam.Protocol.Dispatch.Laws.{
  request_bytes, result_bytes, read_message-request_bytes, read_message-result_bytes,
}

-- A connection with what was written to it and what arrives.
pub record Socket : Type 0 where
  pub tcp : TcpConnection
  pub written : Bytes
  pub incoming : Incoming

-- What the interface sees of a read.
abbrev received_packet : Socket → Result TcpError Packet → Result (Unit {0}) (Option Bytes) × Socket
received_packet s (err e) = (err tt, s)
received_packet s (ok shutdown) = (ok none, s)
received_packet s (ok (packet bs rest)) = (ok (some bs), record s { incoming = rest })

pub tcp_link : Primitives → (ℕ → Option Bytes) → Connection Socket
tcp_link prim rand = record {
  close = λ s. record s { tcp = ConnectionState.close s.tcp };
  set_session_key = λ s key. record s { tcp = set_session_key s.tcp key };
  send = λ s bs.
      let (result, w) = Tcp.send prim rand s.tcp background false (λ i. none) bs in
      (wrap_err (λ _. tt) result, record s { written = s.written ++ w });
  read = λ s. received_packet s (Tcp.read prim s.tcp background false s.incoming);
}

-- A key for a new connection.
given_key :
    (c : TcpConnection) (key : Bytes)
    → c ≡ new_tcp_connection
    → length key ≡ 32
    → set_session_key c key ≡ record { state = connected_encrypted; session_key = key }
unfolding encrypted_state
given_key c [] fresh h = absurd (omega arith)
given_key c (b ∷ key) fresh h = rw fresh (set_session_key_set new_tcp_connection b key)
