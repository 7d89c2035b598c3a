-- ===== src/Protocol/Heartbeat/Channels/Steps.antt =====
-- Every step of an interleaving keeps the stop channels sound.
use go_steam.Base.{
  ℕ, zero, suc, ◌≡◌, refl, sym, ◌∙◌, inl, inr, Bool, true, false, Option, none, some, [], ◌∷◌, List,
  get_elem?, if◌then◌else◌, All,
}
use mathlib.Core.Path.{subst}
use mathlib.Core.List.{Mem, Memᴰ, mem-cons_of_mem}
use go_steam.Protocol.State.{is_positive}
use go_steam.Protocol.Heartbeat.{
  Stage, starting, looping, waiting, ended, Heartbeats, no_heartbeats, Outcome, moved, blocked,
  panicked, is_closed, and_then, put, make_ticker, enter, receive, beat, finish, Action, start,
  stop, cancel, ticker, select_, stopped, tick, tick_failed, done, act, run_actions,
}
use go_steam.Protocol.Heartbeat.Channels.{
  IsServed, IsSound, IsSafe, close_field, IsServed-close_field, start_heartbeat-started, halted,
  close_heartbeat-halted, started-IsSound, halted-IsSound, put-IsSound, field-IsServed,
}

moved-injective : {s t : Heartbeats} → moved s ≡ moved t → s ≡ t
moved-injective h = cc

get_elem?-All :
    (P : Stage → Type 0) (xs : List Stage) (i : ℕ) (x : Stage)
    → All P xs
    → get_elem? xs i ≡ some x
    → P x
get_elem?-All P [] i x h e = cc
get_elem?-All P (y ∷ ys) zero x (hy, h) e = let same : y ≡ x = cc in rw (← same) hy
get_elem?-All P (y ∷ ys) (suc i) x (hy, h) e = get_elem?-All P ys i x h e

module _ (P : ℕ → Type 0) where
  makes-IsSafe :
      (i : ℕ) (s : Heartbeats) (seconds : ℕ) (b : Bool)
      → is_positive seconds ≡ b
      → P seconds
      → IsSound P s
      → IsSafe P (if b then moved (put i looping s) else panicked)
  unfolding IsSafe IsServed
  makes-IsSafe i s seconds true e allowed inv = put-IsSound P i looping s tt inv
  makes-IsSafe i s seconds false e allowed inv = (seconds, allowed, e)

  make_ticker-IsSafe :
      (i : ℕ) (s : Heartbeats) (o : Option Stage)
      → get_elem? s.goroutines i ≡ o
      → IsSound P s
      → IsSafe P (make_ticker i s o)
  unfolding make_ticker IsSafe IsServed
  make_ticker-IsSafe i s none at inv = tt
  make_ticker-IsSafe i s (some (starting seconds)) at inv =
      makes-IsSafe i s seconds (is_positive seconds) refl
        (get_elem?-All _ s.goroutines i _ inv.served at) inv
  make_ticker-IsSafe i s (some looping) at inv = tt
  make_ticker-IsSafe i s (some (waiting c)) at inv = tt
  make_ticker-IsSafe i s (some ended) at inv = tt

  enter-IsSafe : (i : ℕ) (s : Heartbeats) (o : Option Stage) → IsSound P s → IsSafe P (enter i s o)
  unfolding enter IsSafe
  enter-IsSafe i s none inv = tt
  enter-IsSafe i s (some (starting seconds)) inv = tt
  enter-IsSafe i s (some looping) inv =
      put-IsSound P i _ s (field-IsServed P s.stop_heartbeat s.closed) inv
  enter-IsSafe i s (some (waiting c)) inv = tt
  enter-IsSafe i s (some ended) inv = tt

  -- The end of a goroutine, if a test holds.
  ends-IsSafe :
      (i : ℕ) (s : Heartbeats) (b : Bool)
      → IsSound P s
      → IsSafe P (if b then moved (put i ended s) else blocked)
  unfolding IsSafe IsServed
  ends-IsSafe i s true inv = put-IsSound P i ended s tt inv
  ends-IsSafe i s false inv = tt

  receive-IsSafe :
      (i : ℕ) (s : Heartbeats) (o : Option Stage) → IsSound P s → IsSafe P (receive i s o)
  unfolding receive IsSafe
  receive-IsSafe i s none inv = tt
  receive-IsSafe i s (some (starting seconds)) inv = tt
  receive-IsSafe i s (some looping) inv = tt
  receive-IsSafe i s (some (waiting none)) inv = tt
  receive-IsSafe i s (some (waiting (some c))) inv = ends-IsSafe i s _ inv
  receive-IsSafe i s (some ended) inv = tt

  beat-IsSafe :
      (sent : Bool) (i : ℕ) (s : Heartbeats) (o : Option Stage)
      → IsSound P s
      → IsSafe P (beat sent i s o)
  unfolding beat IsSafe IsServed
  beat-IsSafe sent i s none inv = tt
  beat-IsSafe sent i s (some (starting seconds)) inv = tt
  beat-IsSafe sent i s (some looping) inv = tt
  beat-IsSafe sent i s (some (waiting c)) inv =
      let rest = put-IsSound P i looping s tt inv in
      record { current = rest.current; fresh = rest.fresh; served = rest.served }
  beat-IsSafe sent i s (some ended) inv = tt

  finish-IsSafe :
      (i : ℕ) (s : Heartbeats) (o : Option Stage) → IsSound P s → IsSafe P (finish i s o)
  unfolding finish IsSafe
  finish-IsSafe i s none inv = tt
  finish-IsSafe i s (some (starting seconds)) inv = tt
  finish-IsSafe i s (some looping) inv = tt
  finish-IsSafe i s (some (waiting c)) inv = ends-IsSafe i s s.cancelled inv
  finish-IsSafe i s (some ended) inv = tt

  -- What is asked of an action.
  pub IsAllowed : Action → Type 0
  IsAllowed (start seconds) = P seconds
  IsAllowed _ = Unit

  act-IsSafe : (a : Action) (s : Heartbeats) → IsAllowed a → IsSound P s → IsSafe P (act a s)
  unfolding act IsSafe IsAllowed
  act-IsSafe (start seconds) s allowed inv =
      rw (start_heartbeat-started P seconds s inv) (started-IsSound P seconds s allowed inv)
  act-IsSafe (ticker i) s _ inv = make_ticker-IsSafe i s _ refl inv
  act-IsSafe (tick_failed i) s _ inv = beat-IsSafe false i s _ inv
  act-IsSafe stop s _ inv = rw (close_heartbeat-halted P s inv) (halted-IsSound P s inv)
  act-IsSafe cancel s _ inv = record {
    current = inv.current;
    fresh = inv.fresh;
    served = inv.served;
  }
  act-IsSafe (select_ i) s _ inv = enter-IsSafe i s _ inv
  act-IsSafe (stopped i) s _ inv = receive-IsSafe i s _ inv
  act-IsSafe (tick i) s _ inv = beat-IsSafe true i s _ inv
  act-IsSafe (done i) s _ inv = finish-IsSafe i s _ inv

  and_then-IsSafe :
      (o : Outcome) (f : Heartbeats → Outcome)
      → IsSafe P o
      → ((t : Heartbeats) → IsSound P t → IsSafe P (f t))
      → IsSafe P (and_then o f)
  unfolding and_then IsSafe
  and_then-IsSafe (moved t) f h k = k t h
  and_then-IsSafe blocked f h k = tt
  and_then-IsSafe panicked f h k = h

  run_actions-IsSafe :
      (actions : List Action) (s : Heartbeats)
      → All IsAllowed actions
      → IsSound P s
      → IsSafe P (run_actions actions s)
  unfolding run_actions IsSafe
  run_actions-IsSafe [] s _ inv = inv
  run_actions-IsSafe (a ∷ rest) s (allowed, later) inv =
      and_then-IsSafe (act a s) (run_actions rest) (act-IsSafe a s allowed inv)
        (λ t. run_actions-IsSafe rest t later)

  no_heartbeats-IsSound : IsSound P no_heartbeats
  unfolding no_heartbeats is_closed
  no_heartbeats-IsSound = record { current = λ c e. cc; fresh = λ c e. cc; served = tt }

  pub reached-IsSafe :
      (actions : List Action) (o : Outcome)
      → All IsAllowed actions
      → run_actions actions no_heartbeats ≡ o
      → IsSafe P o
  reached-IsSafe actions o allowed h =
      subst (IsSafe P) h (run_actions-IsSafe actions no_heartbeats allowed no_heartbeats-IsSound)

  waiting-closed :
      (field : Option ℕ) (ds : List ℕ) (c : ℕ)
      → IsServed P field ds (waiting (some c))
      → is_closed c (close_field field ds) ≡ true
  unfolding IsServed
  waiting-closed field ds c h = elim (IsServed-close_field P field none ds (waiting (some c)) h) [
    | inl e ↦ cc
    | inr e ↦ e
  ]

act-IsAllowed :
    (P : ℕ → Type 0) (a : Action) → ((seconds : ℕ) → a ≡ start seconds → P seconds) → IsAllowed P a
unfolding IsAllowed
act-IsAllowed P (start seconds) h = h seconds refl
act-IsAllowed P stop h = tt
act-IsAllowed P cancel h = tt
act-IsAllowed P (ticker i) h = tt
act-IsAllowed P (select_ i) h = tt
act-IsAllowed P (stopped i) h = tt
act-IsAllowed P (tick i) h = tt
act-IsAllowed P (tick_failed i) h = tt
act-IsAllowed P (done i) h = tt

-- What holds of the seconds of each start is asked of the actions.
pub starts-IsAllowed :
    (P : ℕ → Type 0) (actions : List Action)
    → ((seconds : ℕ) → Mem (start seconds) actions → P seconds)
    → All (IsAllowed P) actions
starts-IsAllowed P [] h = tt
starts-IsAllowed P (a ∷ actions) h = (
  act-IsAllowed P a (λ n e. h n ∣ Memᴰ.head (sym e) ∣₁),
  starts-IsAllowed P actions (λ n m. h n (mem-cons_of_mem a m)),
)

-- A goroutine that waits with a stop channel when `Close` runs can return right after it.
pub close_heartbeat-stopped :
    (actions : List Action) (s t : Heartbeats) (i c : ℕ)
    → run_actions actions no_heartbeats ≡ moved s
    → get_elem? s.goroutines i ≡ some (waiting (some c))
    → act stop s ≡ moved t
    → act (stopped i) t ≡ moved (put i ended t)
unfolding act receive halted IsSafe
close_heartbeat-stopped actions s t i c reach at now =
    let inv : IsSound (λ _. Unit) s =
      reached-IsSafe (λ _. Unit) actions (moved s) (starts-IsAllowed _ actions (λ _ _. tt)) reach in
    let served : IsServed (λ _. Unit) s.stop_heartbeat s.closed (waiting (some c)) =
      get_elem?-All _ s.goroutines i _ inv.served at in
    let same : halted s ≡ t =
      moved-injective (sym (close_heartbeat-halted (λ _. Unit) s inv) ∙ now) in
    rw (← same, at, waiting-closed (λ _. Unit) s.stop_heartbeat s.closed c served) refl
