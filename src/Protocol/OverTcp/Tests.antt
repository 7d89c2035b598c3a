-- ===== src/Protocol/OverTcp/Tests.antt =====
-- The handshake over a concrete socket.
use go_steam.Base.{
  ◌≡◌, refl, true, none, some, [], ◌∷◌, ◌++◌, List, Bytes, length, replicate, arith,
}
use go_steam.Crypto.Tests.{test_primitives, test_rand}
use go_steam.Connection.State.{connected_encrypted, new_tcp_connection}
use go_steam.Connection.Network.{ended}
use go_steam.Protocol.State.{Event, connected, Protocol, read_failed_}
use go_steam.Protocol.Handlers.{Outside}
use go_steam.Protocol.Dispatch.{run}
use go_steam.Protocol.Dispatch.Laws.{request_bytes, result_bytes, response_bytes}
use go_steam.Protocol.OverTcp.{Socket, tcp_link}
use go_steam.Protocol.OverTcp.Run.{run-handshake}
use go_steam.Connection.Tcp.Framing.{frame, arriving}
use go_steam.Base.Results.{err}
use go_steam.Protocol.Tests.{test_codec}

abbrev pub socket_outside : Outside Socket
socket_outside = record {
  link = tcp_link test_primitives test_rand;
  codec = test_codec;
  ready = λ i. true;
  rand = test_rand;
  encrypt_oaep = λ s. some (1 ∷ s);
  crc32 = length;
  gunzip = λ s. some s;
  unmarshal_logon = λ s. none;
  unmarshal_multi = λ s. none;
  unmarshal_announcements = λ s. none;
  unmarshal_notifications = λ s. none;
  announcements_request = some [];
  heart_beat = some [];
}

abbrev pub socket_protocol : Protocol Socket
socket_protocol = record {
  connection = record {
    tcp = new_tcp_connection;
    written = [];
    incoming = record { bytes = []; fault = ended };
  };
  session_key = [];
  heartbeat = none;
  steam_id = 0;
  session_id = 0;
  events = [];
  offers = 0;
}

abbrev pub socket_nonce : Bytes
socket_nonce = replicate 16 9

-- The peer's part of the handshake.
abbrev pub handshaking : Protocol Socket
handshaking = record socket_protocol {
  connection = record {
    tcp = new_tcp_connection;
    written = [];
    incoming =
        arriving
          (frame (request_bytes socket_outside 1 2 socket_nonce)
            ++ (frame (result_bytes socket_outside 1 2 1) ++ []))
          ended;
  };
}

run-handshake_example :
    (h' : Protocol Socket) × (earlier : List Event) × (run socket_outside 1 3 handshaking
      ≡ (err read_failed_, h'))
    × (h'.connection ≡ record {
      tcp = record { state = connected_encrypted; session_key = replicate 32 5 };
      written = [] ++ frame (response_bytes socket_outside 1 2 (1 ∷ replicate 32 5) socket_nonce);
      incoming = arriving [] ended;
    })
    × (h'.session_key ≡ [])
    × (h'.events ≡ earlier ++ connected ∷ [])
run-handshake_example =
    run-handshake test_primitives test_rand socket_outside refl 0 0 1 2 socket_nonce
      (replicate 32 5) (1 ∷ replicate 32 5) handshaking (omega arith) (omega arith) refl refl refl
      refl refl refl
