-- ===== src/Client/Invariant.antt =====
-- What holds of a client after any calls of its methods.
use go_steam.Base.{ℕ, Bool, Option, List, Bytes, refl, sym, ◌∙◌}
use go_steam.SteamId.{SteamId}
use go_steam.Api.Transport.{Transport}
use go_steam.Api.Services.{Decoders}
use go_steam.Identity.Session.{AuthSession, Credentials, Outside}
use go_steam.Client.{Client, new_client}
use go_steam.Client.Auth.{
  begin_auth_session, submit_steam_guard_code, wait_for_confirmation, set_identity,
}
use go_steam.Client.Auth.Laws.{
  IsLoggedIn, new_client-IsLoggedIn, begin_auth_session-IsLoggedIn, submit-IsLoggedIn,
  wait-IsLoggedIn, set_identity-IsLoggedIn,
}
use go_steam.Client.Connect.{Setting, Moment, connect, disconnect}
use go_steam.Client.Connect.Keeps.{IsSameLogin, disconnect-IsSameLogin}
use go_steam.Client.Connect.Rounds.Login.{connect-IsSameLogin}
use go_steam.Client.Logon.{LogonBody, logon}
use go_steam.Client.Logon.Laws.{logon-IsSameLogin}

module _ {W Modulus : Type 0} (transport : Transport W) (decoders : Decoders)
    (outside : Outside W Modulus) (setting : Setting W)
    (marshal_logon : LogonBody → Option Bytes) where
  open setting use {ready, out}

  -- The clients that calls of the methods lead to, each call in a world of its own.
  pub data Reach : Client → Type 0 where
    new : (reconnect : Bool) → Reach (new_client reconnect)
    begun :
        {c : Client} (credentials : Option Credentials) (w : W)
        → Reach c
        → Reach (begin_auth_session transport decoders outside ready credentials (c, w)).1.0
    submitted :
        {c : Client} (rounds : ℕ) (session : Option AuthSession) (code : Bytes) (w : W)
        → Reach c
        → Reach
            (submit_steam_guard_code transport decoders outside ready rounds session code
              (c, w)).1.0
    confirmed :
        {c : Client} (rounds : ℕ) (session : Option AuthSession) (w : W)
        → Reach c
        → Reach (wait_for_confirmation transport decoders outside ready rounds session (c, w)).1.0
    installed :
        {c : Client} (steam_id : SteamId) (token : Bytes) (w : W)
        → Reach c
        → Reach (set_identity transport decoders outside ready steam_id token (c, w)).1.0
    connected :
        {c : Client} (depth rounds : ℕ) (moments : List Moment) (w : W)
        → Reach c
        → Reach (connect setting depth rounds moments (c, w)).1.0
    disconnected : {c : Client} → Reach c → Reach (disconnect setting c)
    logged_on : {c : Client} (w : W) → Reach c → Reach (logon ready out marshal_logon (c, w)).1.0

  kept_login :
      {c d : Client}
      → IsLoggedIn transport decoders outside ready c
      → IsSameLogin c d
      → IsLoggedIn transport decoders outside ready d
  kept_login h same = record {
    genuine = λ p e. h.genuine p (sym same.same_idp ∙ e);
    usable = λ i e. h.usable i (sym same.same_identity ∙ e);
  }

  abbrev unchanged : (c : Client) → IsSameLogin c c
  unchanged c = record { same_idp = refl; same_identity = refl }

  -- After any calls of the methods of a new client, its identity provider, if any, keeps only an
  -- identity that Steam issued, and its identity, if any, was issued by Steam for a session or set with
  -- a valid SteamID and a refresh token.
  pub Reach-IsLoggedIn : (c : Client) → Reach c → IsLoggedIn transport decoders outside ready c
  Reach-IsLoggedIn _ (new reconnect) =
      new_client-IsLoggedIn transport decoders outside ready reconnect
  Reach-IsLoggedIn _ (begun {c = c} credentials w r) =
      begin_auth_session-IsLoggedIn transport decoders outside ready c credentials w
        (Reach-IsLoggedIn c r)
  Reach-IsLoggedIn _ (submitted {c = c} rounds session code w r) =
      submit-IsLoggedIn transport decoders outside ready c rounds session code w
        (Reach-IsLoggedIn c r)
  Reach-IsLoggedIn _ (confirmed {c = c} rounds session w r) =
      wait-IsLoggedIn transport decoders outside ready c rounds session w (Reach-IsLoggedIn c r)
  Reach-IsLoggedIn _ (installed {c = c} steam_id token w r) =
      set_identity-IsLoggedIn transport decoders outside ready c steam_id token w
        (Reach-IsLoggedIn c r)
  Reach-IsLoggedIn _ (connected {c = c} depth rounds moments w r) =
      kept_login (Reach-IsLoggedIn c r)
        (connect-IsSameLogin setting depth rounds moments c c w (unchanged c))
  Reach-IsLoggedIn _ (disconnected {c = c} r) =
      kept_login (Reach-IsLoggedIn c r) (disconnect-IsSameLogin setting c c (unchanged c))
  Reach-IsLoggedIn _ (logged_on {c = c} w r) =
      kept_login (Reach-IsLoggedIn c r) (logon-IsSameLogin ready out marshal_logon c w)
