-- ===== src/Client/Servers/Laws.antt =====
-- Which server the loop over the servers ends with.
use go_steam.Base.{
  Bool, true, false, Bool-cases, Option, none, some, [], ◌∷◌, ◌++◌, List, codes, bytes_equal,
  bytes_equal_refl, bytes_equal_sound, ◌≡◌, ◌≢◌, ◌↔◌, inl, inr, refl, sym, ap, ◌∙◌,
}
use go_steam.Api.Params.{CmServer}
use go_steam.Base.Results.{Result, ok, err}
use go_steam.Connection.State.{TcpConnection, new_tcp_connection}
use go_steam.Connection.Network.{Incoming}
use go_steam.Connection.Dial.{Dialer, DialError, dial_tcp}
use go_steam.Connection.Dial.Laws.{dial_tcp_iff}
use go_steam.Protocol.OverTcp.{Socket}
use go_steam.Client.{unsupported_type}
use go_steam.Client.Servers.{Dialing, assigned, dial_server, dial_servers}

module _ {W : Type 0} (dial : Dialer W) where
  -- The variables hold a connection, without an error.
  abbrev pub Connected : Dialing → Socket → Type 0
  Connected d socket = (d.err_ ≡ none) × (d.conn ≡ some socket)

  -- The socket of a fresh connection to a server, dialled in the world `w`.
  abbrev pub Reached : CmServer → W → Socket → Type 0
  Reached server w socket =
      (server.type_ ≡ codes "netfilter")
      × (server.endpoint ≢ [])
      × ((dial server.endpoint w).0 ≡ some socket.incoming)
      × (socket.tcp ≡ new_tcp_connection)
      × (socket.written ≡ [])

  dial_servers-append :
      (servers : List CmServer) (server : CmServer) (d : Dialing) (w : W)
      → dial_servers dial (servers ++ server ∷ []) (d, w)
        ≡ dial_server dial server
            (dial_servers dial servers (d, w)).0
            (dial_servers dial servers (d, w)).1
  unfolding dial_servers
  dial_servers-append [] server d w = refl
  dial_servers-append (s ∷ servers) server d w =
      dial_servers-append servers server (dial_server dial s d w).0 (dial_server dial s d w).1

  assigned_iff :
      (r : Result DialError (TcpConnection × Incoming) × W) (socket : Socket)
      → Connected (assigned r).0 socket
        ↔ ((socket.written ≡ []) × (w : W) × (r ≡ (ok (socket.tcp, socket.incoming), w)))
  unfolding assigned
  assigned_iff (ok (tcp, incoming), w) socket = (
    λ (_, h).
        let one : Path Socket (record { tcp = tcp; written = []; incoming = incoming }) socket =
          cc in
        (
          sym (ap (λ (x : Socket). x.written) one),
          w,
          ap (λ (x : Socket). (ok (x.tcp, x.incoming), w)) one,
        ),
    λ (unwritten, v, h).
        let tcps : tcp ≡ socket.tcp = cc in
        let incomings : incoming ≡ socket.incoming = cc in
        (refl, rw (tcps, incomings, sym unwritten) refl),
  )
  assigned_iff (err e, w) socket = (λ (h, _). cc, λ (_, _, h). cc)

  abbrev tcp_type : CmServer → Bool
  tcp_type server = bytes_equal server.type_ (codes "netfilter")

  missing :
      (server : CmServer) (d : Dialing) (socket : Socket)
      → Connected (record d { err_ = some (unsupported_type server.type_) }) socket
      → ⊥
  missing server d socket (h, _) = cc

  not_tcp : (server : CmServer) → server.type_ ≡ codes "netfilter" → tcp_type server ≡ false → ⊥
  not_tcp server typed f =
      let yes : tcp_type server ≡ true = rw (typed) (bytes_equal_refl (codes "netfilter")) in cc

  dial_server_iff :
      (server : CmServer) (d : Dialing) (w : W) (socket : Socket)
      → Connected (dial_server dial server d w).0 socket ↔ Reached server w socket
  unfolding dial_server
  dial_server_iff server d w socket = elim (Bool-cases (tcp_type server)) [
    | inl t ↦ (
      λ h.
          let (unwritten, v, e) =
            (assigned_iff (dial_tcp true (some dial) server.endpoint w) socket).0 (rw (t) at h) in
          let (other, _, same, full, reached, new) =
            (dial_tcp_iff true (some dial) server.endpoint socket.tcp socket.incoming w v).0 e in
          let one : dial ≡ other = cc in
          (
            bytes_equal_sound _ _ t,
            full,
            ap (λ (f : Dialer W). (f server.endpoint w).0) one
                ∙ ap (λ (r : Option Incoming × W). r.0) reached,
            new,
            unwritten,
          ),
      λ (_, full, reached, new, unwritten). rw (t) (
          (assigned_iff (dial_tcp true (some dial) server.endpoint w) socket).1 (
            unwritten,
            (dial server.endpoint w).1,
            (dial_tcp_iff true (some dial) server.endpoint socket.tcp socket.incoming w
                  (dial server.endpoint w).1).1
                (
                  dial,
                  refl,
                  refl,
                  full,
                  ap (λ (o : Option Incoming). (o, (dial server.endpoint w).1)) reached,
                  new,
                ),
          )),
    )
    | inr f ↦ (
      λ h. absurd (missing server d socket (rw (f) at h)),
      λ (typed, _, _, _, _). absurd (not_tcp server typed f),
    )
  ]

  -- After the loop over servers that end with `server` there is a connection exactly if `server` has
  -- the type netfilter and an endpoint that the dialer reaches, whatever the servers before it do.
  pub dial_servers_last :
      (servers : List CmServer) (server : CmServer) (d : Dialing) (w : W) (socket : Socket)
      → Connected (dial_servers dial (servers ++ server ∷ []) (d, w)).0 socket
        ↔ Reached server (dial_servers dial servers (d, w)).1 socket
  dial_servers_last servers server d w socket = rw (dial_servers-append servers server d w) (
      dial_server_iff server (dial_servers dial servers (d, w)).0
        (dial_servers dial servers (d, w)).1 socket)
