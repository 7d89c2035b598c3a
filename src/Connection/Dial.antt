-- ===== src/Connection/Dial.antt =====
-- `NewTCPConnection` of connection/tcp.go, over the interface `Dialer` of connection/dialer.go.
pub mod Laws
use go_steam.Base.{Bool, Option, none, some, Bytes, length, ◌==◌, if◌then◌else◌}
use go_steam.Base.Results.{Result, ok, err}
use go_steam.Base.Effects.{Call, ◌>>=◌, pure, fail}
use go_steam.Connection.State.{TcpConnection, new_tcp_connection}
use go_steam.Connection.Network.{Incoming}

-- Dialling an address over TCP in a world `W`; the network connection is known by what arrives on it.
abbrev pub Dialer : Type 0 → Type 0
Dialer W = Bytes → W → Option Incoming × W

pub data DialError : Type 0 where
  nil_context nil_dialer empty_address dial_failed : DialError

unfoldable pub dialled :
    {W : Type 0} → Option Incoming × W → Result DialError (TcpConnection × Incoming) × W
dialled (none, w) = (err dial_failed, w)
dialled (some incoming, w) = (ok (new_tcp_connection, incoming), w)

-- The first argument says whether there is a context, the second is none for a nil dialer.
unfoldable pub dial_tcp :
    {W : Type 0} → Bool → Option (Dialer W) → Bytes → Call DialError W (TcpConnection × Incoming)
dial_tcp context none address = if context then fail nil_dialer else fail nil_context
dial_tcp context (some dial) address =
    if context
    then (if length address == 0 then fail empty_address else (λ w. dialled (dial address w)))
    else fail nil_context
