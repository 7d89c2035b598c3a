-- ===== src/Client/Connect/Keeps.antt =====
-- What `connect` and `Disconnect` keep of a client.
use go_steam.Base.{
  true, not, ◌&&◌, arith, ℕ, Bool, false, Option, none, some, [], ◌∷◌, List, ◌≡◌, refl, ◌∙◌,
}
use go_steam.Base.Results.{Result, ok, err}
use go_steam.Base.Effects.{and_then_keeps}
use go_steam.Api.Params.{CmServer}
use go_steam.Protocol.State.{Protocol, ProtocolError, Event, new_protocol}
use go_steam.Protocol.OverTcp.{Socket}
use go_steam.Protocol.Dispatch as Dispatch
use go_steam.Identity.Session.{Identity}
use go_steam.Client.{
  Client, ServerError, forwarded, offer, forward, hand_over, known_identity, identity,
}
use go_steam.Client.Connect.{
  Setting, opened, open_protocol, reach_server, keep_client, list_servers, ran, run_protocol,
  prepare, connect_once, disconnected, disconnect,
}

-- `c.protocol != nil`
abbrev pub has_protocol : Option (Protocol Socket) → Bool
has_protocol none = false
has_protocol (some h) = true

-- The fields that logging in sets, and the flag for connecting again.
pub record IsSameLogin (c d : Client) : Type 0 where
  pub same_idp : d.auth_idp ≡ c.auth_idp
  pub same_identity : d.auth_identity ≡ c.auth_identity

pub record IsSameState (c d : Client) : Type 0 where
  pub same_login : IsSameLogin c d
  pub same_reconnect : d.reconnect ≡ c.reconnect

pub same : (c : Client) → IsSameState c c
same c = record {
  same_login = record { same_idp = refl; same_identity = refl };
  same_reconnect = refl;
}

-- A client with the same three fields as another.
same_of :
    {c d : Client} (e : Client)
    → e.auth_idp ≡ d.auth_idp
    → e.auth_identity ≡ d.auth_identity
    → e.reconnect ≡ d.reconnect
    → IsSameState c d
    → IsSameState c e
same_of e idp id again h = record {
  same_login = record {
    same_idp = idp ∙ h.same_login.same_idp;
    same_identity = id ∙ h.same_login.same_identity;
  };
  same_reconnect = again ∙ h.same_reconnect;
}

forward-IsSameState :
    {c : Client} (d : Client) (ready : ℕ → Bool) (es : List Event)
    → IsSameState c d
    → IsSameState c (forward ready es d)
unfolding forward offer
forward-IsSameState d ready [] h = h
forward-IsSameState d ready (e ∷ es) h =
    forward-IsSameState (offer ready (forwarded e) d) ready es (same_of _ refl refl refl h)

pub hand_over-IsSameState :
    (c d : Client) (ready : ℕ → Bool) (h : Protocol Socket)
    → IsSameState c d
    → IsSameState c (hand_over ready h d)
unfolding hand_over
hand_over-IsSameState c d ready h same_d =
    forward-IsSameState _ ready h.events
      (same_of (record d { protocol = some (record h { events = [] }) }) refl refl refl same_d)

known_identity-IsSameState :
    {W : Type 0} (o : Option Identity) (c d : Client) (w : W)
    → IsSameState c d
    → IsSameState c (known_identity o d w).1.0
unfolding known_identity
known_identity-IsSameState none c d w h = h
known_identity-IsSameState (some i) c d w h = h

module _ {W : Type 0} (s : Setting W) where
  open s use {transport, decoders, dial, sort_by_load, ready, out}

  -- What is shown of the client that a call leaves.
  abbrev pub Leaves : (Client → Type 0) → Client × W → Type 0
  Leaves P (c, w) = P c

  opened-IsSameState :
      (c d : Client) (e : Option ServerError) (conn : Option Socket) (w : W)
      → IsSameState c d
      → IsSameState c (opened s e conn d w).1.0
  unfolding opened
  opened-IsSameState c d (some e) conn w h = h
  opened-IsSameState c d none none w h = same_of (record d { protocol = none }) refl refl refl h
  opened-IsSameState c d none (some socket) w h =
      same_of (record d { protocol = some (new_protocol socket) }) refl refl refl h

  reach_server-IsSameState :
      (c d : Client) (servers : List CmServer) (w : W)
      → IsSameState c d
      → IsSameState c (reach_server s servers (d, w)).1.0
  unfolding reach_server open_protocol
  reach_server-IsSameState c d [] w h = h
  reach_server-IsSameState c d (server ∷ servers) w h = opened-IsSameState c d _ _ _ h

  pub ran-IsSameState :
      (c d : Client) (w : W) (r : Result ProtocolError (Unit {0}) × Protocol Socket)
      → IsSameState c d
      → IsSameState c (ran s d w r).1.0
  unfolding ran
  ran-IsSameState c d w (ok _, h) same_d = hand_over-IsSameState c d ready h same_d
  ran-IsSameState c d w (err e, h) same_d = hand_over-IsSameState c d ready h same_d

  identity-IsSameState :
      (c d : Client) (w : W) → IsSameState c d → IsSameState c (identity (d, w)).1.0
  unfolding identity
  identity-IsSameState c d w h = known_identity-IsSameState d.auth_identity c d w h

  pub prepare-IsSameState : (c : Client) (w : W) → IsSameState c (prepare s (c, w)).1.0
  unfolding prepare list_servers keep_client
  prepare-IsSameState c w =
      and_then_keeps (Leaves (IsSameState c)) (identity (c, w)) _
        (identity-IsSameState c c w (same c))
        (λ _ (d, w1) h1.
          and_then_keeps (Leaves (IsSameState c)) (list_servers s (d, w1)) _ h1
            (λ servers (d2, w2) h2. reach_server-IsSameState c d2 servers w2 h2))

  pub connect_once-IsSameState :
      (depth rounds : ℕ) (c : Client) (w : W)
      → IsSameState c (connect_once s depth rounds (c, w)).1.0
  unfolding connect_once run_protocol
  connect_once-IsSameState depth rounds c w =
      and_then_keeps (Leaves (IsSameState c)) (prepare s (c, w)) _ (prepare-IsSameState c w)
        (λ p (d, w1) h. ran-IsSameState c d w1 (Dispatch.run out depth rounds p) h)

  disconnected-IsSameLogin :
      (o : Option (Protocol Socket)) (c d : Client)
      → IsSameLogin c d
      → IsSameLogin c (disconnected s o d)
  unfolding disconnected
  disconnected-IsSameLogin none c d h = h
  disconnected-IsSameLogin (some p) c d h = record {
    same_idp = h.same_idp;
    same_identity = h.same_identity;
  }

  pub disconnect-IsSameLogin : (c d : Client) → IsSameLogin c d → IsSameLogin c (disconnect s d)
  unfolding disconnect
  disconnect-IsSameLogin c d h = disconnected-IsSameLogin d.protocol c d h

  disconnected_reconnect :
      (o : Option (Protocol Socket)) (c : Client)
      → (disconnected s o c).reconnect ≡ c.reconnect && not (has_protocol o)
  unfolding disconnected
  disconnected_reconnect none c = ground arith
  disconnected_reconnect (some p) c = ground arith

  -- After `Disconnect`, the client connects again exactly if it did before and it has no protocol:
  -- before the first connection, `Disconnect` changes nothing.
  pub disconnect_reconnect :
      (c : Client) → (disconnect s c).reconnect ≡ c.reconnect && not (has_protocol c.protocol)
  unfolding disconnect
  disconnect_reconnect c = disconnected_reconnect c.protocol c
