-- ===== src/Client/Connect/Rounds/Login.antt =====
-- What the attempts of `Connect` keep of a login.
use go_steam.Base.{ℕ, Bool-cases, [], ◌∷◌, List, inl, inr, ◌∙◌}
use go_steam.Base.Results.{Result, ok, err}
use go_steam.Base.Effects.{and_then}
use go_steam.Protocol.State.{Protocol}
use go_steam.Protocol.Dispatch as Dispatch
use go_steam.Protocol.OverTcp.{Socket}
use go_steam.Client.{Client, ClientError, emit}
use go_steam.Client.Connect.{
  Setting, Moment, never, early, late, running, prepare, disconnect, run_disconnected,
  late_disconnect, next_attempt, attempt, connect,
}
use go_steam.Client.Connect.Keeps.{
  IsSameLogin, prepare-IsSameState, ran-IsSameState, connect_once-IsSameState,
  disconnect-IsSameLogin, same,
}
use go_steam.Client.Connect.Rounds.{reported, next_attempt_round}

module _ {W : Type 0} (s : Setting W) (depth rounds : ℕ) where
  reported-IsSameLogin :
      (c d : Client) (r : Result ClientError (Unit {0}))
      → IsSameLogin c d
      → IsSameLogin c (reported s depth rounds r d)
  unfolding emit
  reported-IsSameLogin c d (ok _) h = h
  reported-IsSameLogin c d (err e) h = record {
    same_idp = h.same_idp;
    same_identity = h.same_identity;
  }

  same_again : (c d e : Client) → IsSameLogin c d → IsSameLogin d e → IsSameLogin c e
  same_again c d e h k = record {
    same_idp = k.same_idp ∙ h.same_idp;
    same_identity = k.same_identity ∙ h.same_identity;
  }

  run_disconnected-IsSameLogin :
      (k : ℕ) (c : Client) (x : Result ClientError (Protocol Socket) × (Client × W))
      → IsSameLogin c x.1.0
      → IsSameLogin c (and_then x (λ h. run_disconnected s depth rounds k h)).1.0
  unfolding and_then run_disconnected
  run_disconnected-IsSameLogin k c (ok h, (d, w)) same_d =
      same_again c (disconnect s d) _ (disconnect-IsSameLogin s c d same_d)
        (ran-IsSameState s (disconnect s d) (disconnect s d) w
          (Dispatch.run_closed s.out depth rounds k h) (same (disconnect s d))).same_login
  run_disconnected-IsSameLogin k c (err e, (d, w)) same_d = same_d

  attempt-IsSameLogin :
      (m : Moment) (c : Client) (w : W) → IsSameLogin c (attempt s depth rounds m (c, w)).1.0
  unfolding attempt late_disconnect
  attempt-IsSameLogin never c w = (connect_once-IsSameState s depth rounds c w).same_login
  attempt-IsSameLogin early c w =
      same_again c (disconnect s c) _ (disconnect-IsSameLogin s c c (same c).same_login)
        (connect_once-IsSameState s depth rounds (disconnect s c) w).same_login
  attempt-IsSameLogin (running k) c w =
      run_disconnected-IsSameLogin k c (prepare s (c, w)) (prepare-IsSameState s c w).same_login
  attempt-IsSameLogin late c w =
      disconnect-IsSameLogin s c _ (connect_once-IsSameState s depth rounds c w).same_login

  next_attempt-IsSameLogin :
      (c : Client) (rest : Client × W → Result ClientError (Unit {0}) × (Client × W))
      (r : Result ClientError (Unit {0})) (d : Client) (w : W)
      → IsSameLogin c d
      → ((e : Client) (v : W) → IsSameLogin c e → IsSameLogin c (rest (e, v)).1.0)
      → IsSameLogin c (next_attempt s rest (r, (d, w))).1.0
  next_attempt-IsSameLogin c rest r d w h k =
      let (ends, goes_on) = next_attempt_round s depth rounds rest r d w in
      elim (Bool-cases d.reconnect) [
        | inl on ↦
            rw (goes_on on) (k (reported s depth rounds r d) w (reported-IsSameLogin c d r h))
        | inr off ↦ rw (ends off) h
      ]

  pub connect-IsSameLogin :
      (moments : List Moment) (c d : Client) (w : W)
      → IsSameLogin c d
      → IsSameLogin c (connect s depth rounds moments (d, w)).1.0
  unfolding connect
  connect-IsSameLogin [] c d w h = h
  connect-IsSameLogin (m ∷ ms) c d w h =
      let (r1, (c1, w1)) = attempt s depth rounds m (d, w) in
      next_attempt-IsSameLogin c (connect s depth rounds ms) r1 c1 w1
        (same_again c d c1 h (attempt-IsSameLogin m d w)) (λ e v k. connect-IsSameLogin ms c e v k)
