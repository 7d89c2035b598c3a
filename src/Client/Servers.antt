-- ===== src/Client/Servers.antt =====
-- The loop over the servers of `connect` (client/connection.go). It dials each server of the list, and
-- no success ends it.
pub mod Laws
use go_steam.Base.{
  ℕ, Bool, true, Option, none, some, [], ◌∷◌, List, Bytes, codes, bytes_equal, if◌then◌else◌,
}
use go_steam.Base.Results.{Result, ok, err}
use go_steam.Api.Params.{CmServer}
use go_steam.Connection.State.{TcpConnection}
use go_steam.Connection.Network.{Incoming}
use go_steam.Connection.Dial.{Dialer, DialError, dial_tcp}
use go_steam.Protocol.OverTcp.{Socket}
use go_steam.Client.{ServerError, dial_error, unsupported_type}

-- The variables `conn` and `err`. What a failed call leaves in `conn` is never used.
pub record Dialing : Type 0 where
  pub conn : Option Socket
  pub err_ : Option ServerError

-- `conn, err = connection.NewTCPConnection(…)`
unfoldable pub assigned :
    {W : Type 0} → Result DialError (TcpConnection × Incoming) × W → Dialing × W
assigned (ok (tcp, incoming), w) = (
  record { conn = some (record { tcp = tcp; written = []; incoming = incoming }); err_ = none },
  w,
)
assigned (err e, w) = (record { conn = none; err_ = some (dial_error e) }, w)

-- The switch over the type of a server.
unfoldable pub dial_server : {W : Type 0} → Dialer W → CmServer → Dialing → W → Dialing × W
dial_server dial server d w =
    if bytes_equal server.type_ (codes "netfilter")
    then assigned (dial_tcp true (some dial) server.endpoint w)
    else (record d { err_ = some (unsupported_type server.type_) }, w)

unfoldable pub dial_servers : {W : Type 0} → Dialer W → List CmServer → Dialing × W → Dialing × W
dial_servers dial [] (d, w) = (d, w)
dial_servers dial (server ∷ servers) (d, w) =
    dial_servers dial servers (dial_server dial server d w)
