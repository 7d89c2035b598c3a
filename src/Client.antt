-- ===== src/Client.antt =====
-- The package client: the state of a client and its options (client/client.go).
pub mod Auth
pub mod Servers
pub mod Connect
pub mod Logon
mod Options
pub mod Invariant
mod Tests
use go_steam.Base.{
  ℕ, suc, Bool, true, false, Option, none, some, [], ◌∷◌, ◌++◌, List, Bytes, if◌then◌else◌,
}
use go_steam.Base.Results.{Result, ok, err}
use go_steam.Base.Effects.{Call}
use go_steam.Protocol.State.{Protocol, ProtocolError, Event}
use go_steam.Protocol.OverTcp.{Socket}
use go_steam.Api.Services.{ServiceError}
use go_steam.Connection.Dial.{DialError}
use go_steam.Identity.Session.{Identity, AuthSession, IdentityError}
use go_steam.Identity.Provider.{Provider}

-- Why a server gives no connection.
pub data ServerError : Type 0 where
  dial_error : DialError → ServerError
  unsupported_type : Bytes → ServerError

-- The errors. `nil_protocol` stands for the panic on a nil pointer, and `attempts_exhausted` is the
-- model's own: the attempts that a run was given are used up.
pub data ClientError : Type 0 where
  credentials_nil provider_missing identity_missing steam_id_invalid token_empty : ClientError
  identity_error : IdentityError → ClientError
  list_error : ServiceError → ClientError
  no_servers empty_connection nil_protocol attempts_exhausted : ClientError
  connection_error : ServerError → ClientError
  protocol_error : ProtocolError → ClientError

-- What the client puts on its channel: the challenge of a session, the error of an attempt, and the
-- events of the protocol.
pub data ClientEvent : Type 0 where
  challenge : AuthSession → ClientEvent
  attempt_failed : ClientError → ClientEvent
  forwarded : Event → ClientEvent

-- `Client`, with the events that were taken from its channel, in order, and the number of sends that
-- did not wait. The APIs and the dialer are arguments of the methods.
pub record Client : Type 0 where
  pub events : List ClientEvent
  pub offers : ℕ
  pub protocol : Option (Protocol Socket)
  pub reconnect : Bool
  pub auth_idp : Option Provider
  pub auth_identity : Option Identity

-- `NewClient` with `WithReconnect(reconnect)`; without that option the flag is false.
unfoldable pub new_client : Bool → Client
new_client reconnect = record {
  events = [];
  offers = 0;
  protocol = none;
  reconnect = reconnect;
  auth_idp = none;
  auth_identity = none;
}

-- A method of the client, over a world `W`.
abbrev pub ClientCall : Type 0 → Type 0 → Type 0
ClientCall W A = Call ClientError (Client × W) A

-- `select { case c.events <- e: default: }`, where `ready i` says whether the channel takes the send
-- with number `i`.
pub offer : (ℕ → Bool) → ClientEvent → Client → Client
offer ready e c = record c {
  events = if ready c.offers then c.events ++ e ∷ [] else c.events;
  offers = suc c.offers;
}

-- The events of the protocol's channel `incoming`, in order, put on the client's channel.
pub forward : (ℕ → Bool) → List Event → Client → Client
forward ready [] c = c
forward ready (e ∷ es) c = forward ready es (offer ready (forwarded e) c)

-- The protocol that a call leaves; the goroutine of `connect` has emptied its channel.
pub hand_over : (ℕ → Bool) → Protocol Socket → Client → Client
hand_over ready h c =
    forward ready h.events (record c { protocol = some (record h { events = [] }) })

-- `c.events <- e`, which waits until the event is taken.
pub emit : ClientEvent → Client → Client
emit e c = record c { events = c.events ++ e ∷ [] }

known_identity :
    {W : Type 0} → Option Identity → Client → W → Result ClientError Identity × (Client × W)
known_identity none c w = (err identity_missing, (c, w))
known_identity (some i) c w = (ok i, (c, w))

-- `Identity`
pub identity : {W : Type 0} → ClientCall W Identity
identity (c, w) = known_identity c.auth_identity c w
