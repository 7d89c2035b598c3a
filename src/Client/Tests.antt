-- ===== src/Client/Tests.antt =====
-- The theorems on the client at concrete inputs: a server list of two servers, of which the dialer
-- reaches both.
use go_steam.Base.{
  ◌↔◌, ℕ, suc, ◌≤◌, true, false, Option, none, some, [], ◌∷◌, ◌++◌, replicate, List, Bytes, codes,
  bytes_equal_refl, ◌≡◌, refl, arith,
}
use mathlib.Core.List.{Mem, Perm, Pairwise, Pairwise-singleton, forall_mem-cons, not-mem-nil}
use mathlib.Core.List.Perm
use native.Mathlib.Bridge.{le_prop}
use go_steam.Base.Results.{ok, err}
use go_steam.Api.Params.{CmServer}
use go_steam.Connection.State.{new_tcp_connection, connected_encrypted}
use go_steam.Connection.Network.{Incoming, ended}
use go_steam.Connection.Dial.{Dialer, dial_tcp, dialled}
use go_steam.Protocol.State.{Protocol, new_protocol, connected, read_failed_}
use go_steam.Protocol.OverTcp.{Socket}
use go_steam.Protocol.OverTcp.Tests.{socket_outside, handshaking, socket_nonce}
use go_steam.Client.Connect.Handshake.{connect_once-handshake}
use go_steam.Crypto.Tests.{test_primitives, test_rand}
use go_steam.Api.Services.{Decoders, checked_list, get_cm_list_for_connect}
use go_steam.Base.Effects.{and_then, wrap_call, wrap_result}
use go_steam.Identity.Session.{Identity, new_identity}
use go_steam.Identity.Tests.{
  test_transport, test_decoders, test_outside, test_credentials, test_session,
}
use go_steam.Client.{Client, ClientEvent, forwarded, protocol_error, new_client}
use go_steam.Client.Auth.{begin_auth_session, submit_steam_guard_code, set_identity}
use go_steam.Client.Auth.Laws.{IsLoggedIn}
use go_steam.Client.Invariant.{new, begun, submitted, Reach-IsLoggedIn}
use go_steam.Client.Servers.{dial_server, dial_servers, assigned}
use go_steam.Client.Servers.Laws.{Reached}
use go_steam.Client.Connect.{
  Setting, Moment, never, early, running, reach_server, open_protocol, opened, connect_once,
  connect,
}
use go_steam.Client.Connect.Laws.{IsByLoad, reach_server_load}
use go_steam.Client.Connect.Rounds.{Ends, connect_iff}
use go_steam.Client.Logon.{LogonBody}
use go_steam.Client.Options.{
  Options, ClientOption, with_api, with_dialer, with_reconnect, latest, or_else, api_of, dialer_of,
  reconnect_of, new_client_with, new_client_with_settled,
}
use go_steam.Api.Http.{http_transport, new_http_transport}
use go_steam.Api.Http.Tests.{test_http}

abbrev server_of : Bytes → ℕ → CmServer
server_of endpoint load = record {
  endpoint = endpoint;
  legacy_endpoint = [];
  type_ = codes "netfilter";
  dc = [];
  realm = [];
  load = load;
}

abbrev busy : CmServer
busy = server_of (codes "a:1") 9

abbrev idle : CmServer
idle = server_of (codes "b:1") 2

abbrev incoming_of : Bytes → Incoming
incoming_of s = record { bytes = s; fault = ended }

abbrev test_dial : Dialer ℕ
test_dial = λ address w. (some (incoming_of address), suc w)

abbrev sort_two : List CmServer → List CmServer
sort_two [] = []
sort_two (a ∷ []) = a ∷ []
sort_two (a ∷ b ∷ rest) = b ∷ a ∷ rest

abbrev test_setting : Setting ℕ
test_setting = record {
  transport = test_transport;
  decoders = test_decoders;
  dial = test_dial;
  sort_by_load = sort_two;
  ready = λ i. true;
  out = socket_outside;
}

abbrev test_marshal_logon : LogonBody → Option Bytes
test_marshal_logon = λ b. some b.access_token

abbrev busy_socket : Socket
busy_socket = record {
  tcp = new_tcp_connection;
  written = [];
  incoming = incoming_of (codes "a:1");
}

two_servers_swapped : Perm (idle ∷ busy ∷ []) (busy ∷ idle ∷ [])
two_servers_swapped = Perm.swap _ _ _

two_servers_sorted : IsByLoad (idle ∷ busy ∷ [])
two_servers_sorted =
    Pairwise.cons
      ((forall_mem-cons (λ (y : CmServer). le_prop {n = 2} {m = y.load})).1
        (omega arith, λ y n. absurd (not-mem-nil n)))
      (Pairwise-singleton _ busy)

abbrev connected_client : Client
connected_client = record (new_client true) { protocol = some (new_protocol busy_socket) }

reached_busy :
    reach_server test_setting (busy ∷ idle ∷ []) (new_client true, 0)
    ≡ (ok (new_protocol busy_socket), (connected_client, 2))
unfolding reach_server open_protocol opened dial_servers dial_server assigned dial_tcp dialled
reached_busy = rw (bytes_equal_refl (codes "netfilter")) refl

reach_server_load_example :
    (server : CmServer) × (socket : Socket) × (v : ℕ) × Mem server (busy ∷ idle ∷ [])
    × ((x : CmServer) → Mem x (busy ∷ idle ∷ []) → x.load ≤ server.load)
    × Reached test_dial server v socket
    × (new_protocol busy_socket ≡ new_protocol socket)
    × (connected_client.protocol ≡ some (new_protocol busy_socket))
reach_server_load_example =
    reach_server_load test_setting (busy ∷ idle ∷ []) (new_client true) connected_client 0 2
      (new_protocol busy_socket) two_servers_swapped two_servers_sorted reached_busy

abbrev logged_in : Client
logged_in =
    (set_identity test_transport test_decoders test_outside (λ i. true) 76561197960287930 (7 ∷ [])
      (new_client true, 0)).1.0

abbrev begun_client : Client
begun_client =
    (begin_auth_session test_transport test_decoders test_outside (λ i. true)
      (some test_credentials) (new_client true, 0)).1.0

Reach-IsLoggedIn_example :
    IsLoggedIn test_transport test_decoders test_outside
      (λ i. true)
      (submit_steam_guard_code test_transport test_decoders test_outside
        (λ i. true)
        9
        (some test_session)
        (codes "R2D2C")
        (begun_client, 3)).1.0
Reach-IsLoggedIn_example =
    Reach-IsLoggedIn test_transport test_decoders test_outside test_setting test_marshal_logon
      (submit_steam_guard_code test_transport test_decoders test_outside (λ i. true) 9
        (some test_session) (codes "R2D2C") (begun_client, 3)).1.0
      (submitted 9 (some test_session) (codes "R2D2C") 3
        (begun (some test_credentials) 0 (new true)))

-- One server, over which the peer's part of the handshake arrives.
abbrev listing : Decoders
listing = record test_decoders {
  server_list_response =
      λ s. some (record { success = true; message = []; server_list = busy ∷ [] });
}

abbrev handshake_setting : Setting ℕ
handshake_setting = record test_setting {
  decoders = listing;
  dial = λ address w. (some handshaking.connection.incoming, suc w);
  sort_by_load = λ servers. servers;
}

abbrev known : Identity
known = new_identity 0 76561197960287930 (7 ∷ [])

abbrev known_client : Client
known_client = record (new_client true) { auth_identity = some known }

abbrev opened_client : Client
opened_client = record known_client { protocol = some (new_protocol handshaking.connection) }

reached_peer :
    reach_server handshake_setting (busy ∷ []) (known_client, 2)
    ≡ (ok (new_protocol handshaking.connection), (opened_client, 3))
unfolding reach_server open_protocol opened dial_servers dial_server assigned dial_tcp dialled
reached_peer = rw (bytes_equal_refl (codes "netfilter")) refl

connect_once-handshake_example :
    (c' : Client) × (h' : Protocol Socket) × (earlier : List ClientEvent) × (connect_once
        handshake_setting 1 3
        (known_client, 1)
      ≡ (err (protocol_error read_failed_), (c', 3)))
    × (c'.protocol ≡ some h')
    × (h'.connection.tcp ≡ record { state = connected_encrypted; session_key = replicate 32 5 })
    × (c'.events ≡ earlier ++ forwarded connected ∷ [])
unfolding get_cm_list_for_connect checked_list and_then wrap_call wrap_result
connect_once-handshake_example =
    connect_once-handshake handshake_setting test_primitives test_rand refl 0 0 1 2 socket_nonce
      (replicate 32 5) (1 ∷ replicate 32 5) handshaking.connection known_client opened_client known
      (busy ∷ []) 1 2 3 (omega arith) (omega arith) refl refl refl refl (λ n. refl) refl refl
      reached_peer refl refl

-- `Disconnect` comes before the first connection, where it finds no protocol, and then in the next
-- attempt when a packet was read.
abbrev moments : List Moment
moments = early ∷ running 1 ∷ never ∷ []

-- What the client and the world are in the end.
abbrev left : Client × ℕ
left = (connect handshake_setting 1 3 moments (known_client, 1)).1

connect_iff_example :
    (connect handshake_setting 1 3 moments (known_client, 1)
      ≡ (err (protocol_error read_failed_), left))
    ↔ Ends handshake_setting 1 3 (known_client, 1) moments (err (protocol_error read_failed_)) left
unfolding new_client
connect_iff_example =
    connect_iff handshake_setting 1 3 moments known_client 1 left
      (err (protocol_error read_failed_)) refl (λ e. cc)

-- A dialer, an API that is nil, and a flag that is set twice.
abbrev some_options : List (ClientOption ℕ)
some_options =
    with_dialer (some test_dial) ∷ with_api none ∷ with_reconnect false ∷ with_reconnect true ∷ []

new_client_with_settled_example :
    (c : Options ℕ) × (client : Client) × (new_client_with test_http test_dial some_options
      ≡ ok (c, client))
    × (c.api ≡ some (record { transport = http_transport test_http new_http_transport }))
    × (c.dialer ≡ some test_dial)
    × (client.reconnect ≡ true)
unfolding latest or_else api_of dialer_of reconnect_of
new_client_with_settled_example = new_client_with_settled test_http test_dial some_options
