-- ===== src/Client/Logon/Laws.antt =====
-- When `Logon` panics, and what it keeps.
use go_steam.Base.{ℕ, Bool, Option, none, some, Bytes, ◌≡◌, ◌≢◌, ◌↔◌, refl}
use go_steam.Base.Results.{Result, ok, err}
use go_steam.Base.Effects.{and_then}
use go_steam.Protocol.State.{Protocol, ProtocolError}
use go_steam.Protocol.Handlers.{Outside, send}
use go_steam.Protocol.OverTcp.{Socket}
use go_steam.Identity.Session.{Identity}
use go_steam.Client.{Client, ClientError, nil_protocol, known_identity, identity}
use go_steam.Client.Connect.Keeps.{IsSameLogin, same, hand_over-IsSameState}
use go_steam.Client.Logon.{LogonBody, logon_header, logon_body, sent, sent_to, send_logon, logon}

module _ {W : Type 0} (ready : ℕ → Bool) (out : Outside Socket)
    (marshal_logon : LogonBody → Option Bytes) where
  abbrev Panics : Result ClientError (Unit {0}) × (Client × W) → Type 0
  Panics r = r.0 ≡ err nil_protocol

  sent_laws :
      (c : Client) (w : W) (r : Result ProtocolError (Unit {0}) × Protocol Socket)
      → ¬ Panics (sent ready out marshal_logon c w r)
        × IsSameLogin c (sent ready out marshal_logon c w r).1.0
  unfolding sent
  sent_laws c w (ok _, h) = (λ e. cc, (hand_over-IsSameState c c ready h (same c)).same_login)
  sent_laws c w (err e, h) = (λ e. cc, (hand_over-IsSameState c c ready h (same c)).same_login)

  sent_to_laws :
      (o : Option (Protocol Socket)) (i : Identity) (c : Client) (w : W)
      → (Panics (sent_to ready out marshal_logon o i c w) ↔ (o ≡ none))
        × IsSameLogin c (sent_to ready out marshal_logon o i c w).1.0
  unfolding sent_to
  sent_to_laws none i c w =
      ((λ h. refl, λ h. refl), record { same_idp = refl; same_identity = refl })
  sent_to_laws (some h) i c w =
      let (quiet, login) =
        sent_laws c w (send out (logon_header i) (marshal_logon (logon_body i)) h) in
      ((λ e. absurd (quiet e), λ e. cc), login)

  known_laws :
      (o : Option Identity) (c : Client) (w : W)
      → (Panics (and_then (known_identity o c w) (send_logon ready out marshal_logon))
          ↔ ((o ≢ none) × (c.protocol ≡ none)))
        × IsSameLogin c (and_then (known_identity o c w) (send_logon ready out marshal_logon)).1.0
  unfolding known_identity and_then send_logon
  known_laws none c w =
      ((λ e. cc, λ (h, _). absurd (h refl)), record { same_idp = refl; same_identity = refl })
  known_laws (some i) c w =
      let ((to, from), login) = sent_to_laws c.protocol i c w in
      ((λ e. (λ h. cc, to e), λ (_, h). from h), login)

  -- `Logon` panics exactly if the client has an identity and no protocol yet.
  pub logon_panics :
      (c : Client) (w : W)
      → ((logon ready out marshal_logon (c, w)).0 ≡ err nil_protocol)
        ↔ ((c.auth_identity ≢ none) × (c.protocol ≡ none))
  unfolding logon identity
  logon_panics c w = (known_laws c.auth_identity c w).0

  pub logon-IsSameLogin :
      (c : Client) (w : W) → IsSameLogin c (logon ready out marshal_logon (c, w)).1.0
  unfolding logon identity
  logon-IsSameLogin c w = (known_laws c.auth_identity c w).1
