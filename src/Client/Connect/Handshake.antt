-- ===== src/Client/Connect/Handshake.antt =====
-- An attempt of `Connect` from the identity to the encrypted connection, across the packages api,
-- connection and protocol.
use go_steam.Base.{
  ℕ, suc, ◌<◌, ◌^◌, ◌≡◌, refl, ap, sym, ◌∙◌, true, Bool, Option, some, [], ◌∷◌, ◌++◌, List, Bytes,
  codes, length, append-nil, append_assoc,
}
use go_steam.Base.Results.{ok, err}
use go_steam.Base.Effects.{and_then, wrap_call, wrap_result}
use go_steam.Crypto.Primitives.{Primitives}
use go_steam.Api.Params.{CmServer}
use go_steam.Api.Services.{get_cm_list_for_connect}
use go_steam.Connection.State.{new_tcp_connection, connected_encrypted}
use go_steam.Connection.Network.{ended}
use go_steam.Connection.Tcp.Framing.{frame, arriving}
use go_steam.Protocol.State.{Protocol, Event, connected, new_protocol, read_failed_}
use go_steam.Protocol.OverTcp.{Socket, tcp_link}
use go_steam.Protocol.OverTcp.Run.{run-handshake}
use go_steam.Protocol.Dispatch.Laws.{request_bytes, result_bytes}
use go_steam.Identity.Session.{Identity}
use go_steam.Client.{Client, ClientEvent, forwarded, offer, forward, hand_over, protocol_error}
use go_steam.Client.Auth.Done.{identity_known}
use go_steam.Client.Connect.{
  Setting, reach_server, list_servers, keep_client, ran, run_protocol, prepare, connect_once,
}

-- The events that a channel takes which is always ready.
all_forwarded : List Event → List ClientEvent
all_forwarded [] = []
all_forwarded (e ∷ es) = forwarded e ∷ all_forwarded es

all_forwarded-last :
    (es : List Event) (e : Event)
    → all_forwarded (es ++ e ∷ []) ≡ all_forwarded es ++ forwarded e ∷ []
unfolding all_forwarded
all_forwarded-last [] e = refl
all_forwarded-last (x ∷ es) e = ap (λ t. forwarded x ∷ t) (all_forwarded-last es e)

module _ (ready : ℕ → Bool) (taken : (n : ℕ) → ready n ≡ true) where
  forward-ready :
      (es : List Event) (c : Client) → (forward ready es c).events ≡ c.events ++ all_forwarded es
  unfolding forward offer all_forwarded
  forward-ready [] c = sym (append-nil c.events)
  forward-ready (e ∷ es) c =
      forward-ready es (offer ready (forwarded e) c)
      ∙ rw (taken c.offers) (append_assoc c.events (forwarded e ∷ []) (all_forwarded es))

  forward-protocol : (es : List Event) (c : Client) → (forward ready es c).protocol ≡ c.protocol
  unfolding forward offer
  forward-protocol [] c = refl
  forward-protocol (e ∷ es) c = forward-protocol es (offer ready (forwarded e) c)

module _ {W : Type 0} (s : Setting W) (prim : Primitives) (rand : ℕ → Option Bytes)
    (same : s.out.link ≡ tcp_link prim rand) where
  -- `connect` with an identity, when the list of servers comes, a server is reached over which the
  -- peer's part of the encryption handshake arrives before the stream ends, and the client's channel
  -- takes every event: the attempt ends with the error of the last read, the connection of the
  -- client's protocol is encrypted under the session key, and the client's last event is the one that
  -- it is connected, upon which a caller logs on.
  pub connect_once-handshake :
      (depth rounds target source : ℕ) (nonce plain encrypted : Bytes) (socket : Socket)
      (c c1 : Client) (i : Identity) (servers : List CmServer) (w w1 w2 : W)
      → target < 2 ^ 64
      → source < 2 ^ 64
      → length nonce ≡ 16
      → s.out.rand 32 ≡ some plain
      → length plain ≡ 32
      → s.out.encrypt_oaep plain ≡ some encrypted
      → ((n : ℕ) → s.ready n ≡ true)
      → c.auth_identity ≡ some i
      → get_cm_list_for_connect s.transport s.decoders
          (record {
            cell_id = 0;
            cm_type = codes "netfilter";
            realm = codes "steamglobal";
            max_count = 0;
          })
          w
        ≡ (ok servers, w1)
      → reach_server s servers (c, w1) ≡ (ok (new_protocol socket), (c1, w2))
      → socket.tcp ≡ new_tcp_connection
      → socket.incoming
        ≡ arriving
            (frame (request_bytes s.out target source nonce)
              ++ (frame (result_bytes s.out target source 1) ++ []))
            ended
      → (c' : Client) × (h' : Protocol Socket) × (earlier : List ClientEvent) × (connect_once s
            (suc depth)
            (suc (suc (suc rounds)))
            (c, w)
          ≡ (err (protocol_error read_failed_), (c', w2)))
        × (c'.protocol ≡ some h')
        × (h'.connection.tcp ≡ record { state = connected_encrypted; session_key = plain })
        × (c'.events ≡ earlier ++ forwarded connected ∷ [])
  unfolding connect_once prepare list_servers keep_client run_protocol ran hand_over new_protocol
      and_then wrap_call wrap_result
  connect_once-handshake depth rounds target source nonce plain encrypted socket c c1 i servers w w1
        w2 ht hs h16 hr h32 he taken known listed reached fresh comes =
      let (h', earlier, ended_, conn, key, events) =
        run-handshake prim rand s.out same depth rounds target source nonce plain encrypted
          (new_protocol socket) ht hs h16 hr h32 he fresh comes in
      let emptied = record h' { events = [] } in
      let handed = record c1 { protocol = some emptied } in
      (
        hand_over s.ready h' c1,
        emptied,
        c1.events ++ all_forwarded earlier,
        rw (identity_known c i w known, listed, reached, ended_) refl,
        forward-protocol s.ready taken h'.events handed,
        ap (λ (k : Socket). k.tcp) conn,
        forward-ready s.ready taken h'.events handed
            ∙ rw (events, all_forwarded-last earlier connected)
                (sym (append_assoc c1.events (all_forwarded earlier) (forwarded connected ∷ []))),
      )
