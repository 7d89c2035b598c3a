-- ===== src/Client/Connect/Rounds.antt =====
-- The attempts of `Connect`, and when it returns.
pub mod Login
use go_steam.Base.{
  not, ◌&&◌, arith, sym, ap, ℕ, Bool, true, false, Bool-cases, Option, none, some, [], ◌∷◌, List,
  ◌≡◌, ◌≢◌, ◌↔◌, inl, inr, refl, ◌∙◌,
}
use go_steam.Base.Results.{Result, ok, err}
use go_steam.Base.Effects.{and_then}
use go_steam.Protocol.State.{Protocol}
use go_steam.Protocol.Dispatch as Dispatch
use go_steam.Protocol.OverTcp.{Socket}
use go_steam.Client.{
  Client, ClientError, attempt_failed, attempts_exhausted, emit, ServerError, identity,
}
use go_steam.Api.Params.{CmServer}
use go_steam.Client.Connect.{
  Setting, Moment, never, early, late, running, prepare, connect_once, disconnect, run_disconnected,
  late_disconnect, next_attempt, attempt, connect, opened, open_protocol, reach_server,
  list_servers,
}
use go_steam.Client.Connect.Keeps.{
  IsSameLogin, IsSameState, prepare-IsSameState, ran-IsSameState, connect_once-IsSameState,
  disconnect-IsSameLogin, has_protocol, disconnect_reconnect, same,
}

succeeds : {A B : Type 0} → Result ClientError A × B → Bool
succeeds (ok _, _) = true
succeeds (err _, _) = false

module _ {W : Type 0} (s : Setting W) (depth rounds : ℕ) where
  -- Whether `Disconnect` is called in an attempt from this state while there is a protocol.
  pub finds : Moment → Client × W → Bool
  finds never s0 = false
  finds early (c, w) = has_protocol c.protocol
  finds (running k) s0 = succeeds (prepare s s0)
  finds late s0 = has_protocol (connect_once s depth rounds s0).1.0.protocol

  -- The client that starts the next attempt after an attempt with a result.
  abbrev pub reported : Result ClientError (Unit {0}) → Client → Client
  reported (ok _) c = c
  reported (err e) c = emit (attempt_failed e) c

  -- `Connect` goes through attempts in which no `Disconnect` finds a protocol, up to one in which it
  -- does, and which ends with a result.
  pub data Ends
      : Client × W → List Moment → Result ClientError (Unit {0}) → Client × W → Type 0 where
    last :
        {m : Moment} {ms : List Moment} {s0 s1 : Client × W} {r : Result ClientError (Unit {0})}
        → attempt s depth rounds m s0 ≡ (r, s1)
        → finds m s0 ≡ true
        → Ends s0 (m ∷ ms) r s1
    next :
        {m : Moment} {ms : List Moment} {s0 s2 : Client × W} {c1 : Client} {w1 : W}
        {r r1 : Result ClientError (Unit {0})}
        → attempt s depth rounds m s0 ≡ (r1, (c1, w1))
        → finds m s0 ≡ false
        → Ends (reported r1 c1, w1) ms r s2
        → Ends s0 (m ∷ ms) r s2

  -- A success comes with a protocol.
  Opens : {A : Type 0} → Result ClientError A × (Client × W) → Type 0
  Opens x = succeeds x ≡ true → has_protocol x.1.0.protocol ≡ true

  and_then-Opens :
      {A B : Type 0} (x : Result ClientError A × (Client × W))
      (f : A → Client × W → Result ClientError B × (Client × W))
      → ((a : A) (s0 : Client × W) → Opens (f a s0))
      → Opens (and_then x f)
  unfolding and_then Opens succeeds
  and_then-Opens (ok a, s0) f h = h a s0
  and_then-Opens (err e, s0) f h = λ no. cc

  opened-Opens :
      (e : Option ServerError) (conn : Option Socket) (c : Client) (w : W)
      → Opens (opened s e conn c w)
  unfolding opened Opens succeeds
  opened-Opens (some e) conn c w = λ no. cc
  opened-Opens none none c w = λ no. cc
  opened-Opens none (some socket) c w = λ _. refl

  reach_server-Opens :
      (servers : List CmServer) (s0 : Client × W) → Opens (reach_server s servers s0)
  unfolding reach_server open_protocol Opens succeeds
  reach_server-Opens [] (c, w) = λ no. cc
  reach_server-Opens (server ∷ servers) (c, w) = opened-Opens _ _ c _

  prepare-Opens : (s0 : Client × W) → Opens (prepare s s0)
  unfolding prepare
  prepare-Opens s0 =
      and_then-Opens (identity s0) _
        (λ _ s1. and_then-Opens (list_servers s s1) _ (λ servers s2. reach_server-Opens servers s2))

  run_disconnected_reconnect :
      (k : ℕ) (c : Client) (x : Result ClientError (Protocol Socket) × (Client × W))
      → IsSameState c x.1.0
      → Opens x
      → (and_then x (λ h. run_disconnected s depth rounds k h)).1.0.reconnect
        ≡ c.reconnect && not (succeeds x)
  unfolding and_then run_disconnected succeeds Opens
  run_disconnected_reconnect k c (ok h, (d, w)) same_d opens =
      let left =
        ran-IsSameState s (disconnect s d) (disconnect s d) w
          (Dispatch.run_closed s.out depth rounds k h) (same (disconnect s d)) in
      left.same_reconnect ∙ disconnect_reconnect s d ∙ rw (opens refl, same_d.same_reconnect) refl
  run_disconnected_reconnect k c (err e, (d, w)) same_d opens =
      ground (arith, same_d.same_reconnect)

  attempt_reconnect :
      (m : Moment) (c : Client) (w : W)
      → (attempt s depth rounds m (c, w)).1.0.reconnect ≡ c.reconnect && not (finds m (c, w))
  unfolding attempt finds late_disconnect
  attempt_reconnect never c w =
      ground (arith, (connect_once-IsSameState s depth rounds c w).same_reconnect)
  attempt_reconnect early c w =
      (connect_once-IsSameState s depth rounds (disconnect s c) w).same_reconnect
      ∙ disconnect_reconnect s c
  attempt_reconnect (running k) c w =
      run_disconnected_reconnect k c (prepare s (c, w)) (prepare-IsSameState s c w)
        (prepare-Opens (c, w))
  attempt_reconnect late c w =
      let left = (connect_once-IsSameState s depth rounds c w).same_reconnect in
      disconnect_reconnect s (connect_once s depth rounds (c, w)).1.0
      ∙ ap (λ b. b && not (has_protocol (connect_once s depth rounds (c, w)).1.0.protocol)) left

  next_attempt_round :
      (rest : Client × W → Result ClientError (Unit {0}) × (Client × W))
      (r : Result ClientError (Unit {0})) (c : Client) (w : W)
      → ((c.reconnect ≡ false) → next_attempt s rest (r, (c, w)) ≡ (r, (c, w)))
        × ((c.reconnect ≡ true) → next_attempt s rest (r, (c, w)) ≡ rest (reported r c, w))
  unfolding next_attempt
  next_attempt_round rest (ok _) c w = (λ h. rw h refl, λ h. rw h refl)
  next_attempt_round rest (err e) c w = (λ h. rw h refl, λ h. rw h refl)

  reported_reconnect :
      (r : Result ClientError (Unit {0})) (c : Client) → (reported r c).reconnect ≡ c.reconnect
  unfolding emit
  reported_reconnect (ok _) c = refl
  reported_reconnect (err e) c = refl

  -- The flag behind an attempt of a client that is to connect again.
  flag_after :
      (m : Moment) (c c1 : Client) (w w1 : W) (r : Result ClientError (Unit {0})) (b : Bool)
      → c.reconnect ≡ true
      → attempt s depth rounds m (c, w) ≡ (r, (c1, w1))
      → finds m (c, w) ≡ b
      → c1.reconnect ≡ not b
  flag_after m c c1 w w1 r b on e f =
      let flag : c1.reconnect ≡ c.reconnect && not (finds m (c, w)) =
        rw e at (attempt_reconnect m c w) in
      flag ∙ rw (f, on) refl

  connect-Ends :
      (ms : List Moment) (c : Client) (w : W) (s1 : Client × W) (r : Result ClientError (Unit {0}))
      → c.reconnect ≡ true
      → r ≢ err attempts_exhausted
      → connect s depth rounds ms (c, w) ≡ (r, s1)
      → Ends (c, w) ms r s1
  unfolding connect
  connect-Ends [] c w s1 r on real h = absurd (real cc)
  connect-Ends (m ∷ ms) c w s1 r on real h =
      let (r1, (c1, w1)) = attempt s depth rounds m (c, w) in
      let (ends, goes_on) = next_attempt_round (connect s depth rounds ms) r1 c1 w1 in
      elim (Bool-cases (finds m (c, w))) [
        | inl found ↦ last (sym (ends (flag_after m c c1 w w1 r1 true on refl found)) ∙ h) found
        | inr missed ↦
            let again = flag_after m c c1 w w1 r1 false on refl missed in
            next refl missed (
              connect-Ends ms (reported r1 c1) w1 s1 r (reported_reconnect r1 c1 ∙ again) real
                (sym (goes_on again) ∙ h))
      ]

  Ends-connect :
      (ms : List Moment) (c : Client) (w : W) (s1 : Client × W) (r : Result ClientError (Unit {0}))
      → c.reconnect ≡ true
      → Ends (c, w) ms r s1
      → connect s depth rounds ms (c, w) ≡ (r, s1)
  unfolding connect
  Ends-connect _ c w s1 r on (last {m = m} {ms = ms} {s1 = (c1, w1)} e f) =
      let off = flag_after m c c1 w w1 r true on e f in
      ap (next_attempt s (connect s depth rounds ms)) e
      ∙ (next_attempt_round (connect s depth rounds ms) r c1 w1).0 off
  Ends-connect _ c w s1 r on (next {m = m} {ms = ms} {c1 = c1} {w1 = w1} {r1 = r1} e f later) =
      let again = flag_after m c c1 w w1 r1 false on e f in
      ap (next_attempt s (connect s depth rounds ms)) e
      ∙ (next_attempt_round (connect s depth rounds ms) r1 c1 w1).1 again
      ∙ Ends-connect ms (reported r1 c1) w1 s1 r (reported_reconnect r1 c1 ∙ again) later

  -- A `Connect` that is to connect again, in which `Disconnect` is called in each attempt at most once,
  -- returns a result, other than that the given attempts are used up, if and only if in one of the
  -- attempts `Disconnect` is called while there is a protocol: before `connect` sets one, if the client
  -- has an old one, while `Run` runs, or afterwards, if the attempt leaves one. It returns what the
  -- first such attempt returns, and every attempt before it that fails is an event.
  pub connect_iff :
      (ms : List Moment) (c : Client) (w : W) (s1 : Client × W) (r : Result ClientError (Unit {0}))
      → c.reconnect ≡ true
      → r ≢ err attempts_exhausted
      → (connect s depth rounds ms (c, w) ≡ (r, s1)) ↔ Ends (c, w) ms r s1
  connect_iff ms c w s1 r on real = (connect-Ends ms c w s1 r on real, Ends-connect ms c w s1 r on)
