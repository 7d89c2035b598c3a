-- ===== src/Protocol/Heartbeat/Leak.antt =====
-- A goroutine that is outside of its `select` when `Close` runs: it reads the field afterwards.
use go_steam.Base.{
  ℕ, zero, suc, ◌≡◌, refl, ap, sym, ◌∙◌, Bool, true, false, Option, none, some, [], ◌∷◌, List,
  get_elem?, if◌then◌else◌, All,
}
use mathlib.Core.Path.{subst}
use go_steam.Protocol.State.{is_positive}
use go_steam.Protocol.Heartbeat.{
  Stage, starting, looping, waiting, ended, Heartbeats, Outcome, moved, blocked, panicked,
  stop_running, is_closed, and_then, close_heartbeat, set_at, put, make_ticker, enter, receive,
  beat, finish, Action, start, stop, cancel, ticker, select_, stopped, tick, tick_failed, done, act,
  run_actions,
}

-- A step of a goroutine.
unfoldable pub IsGoroutineStep : Action → Type 0
IsGoroutineStep (start seconds) = ⊥
IsGoroutineStep stop = ⊥
IsGoroutineStep cancel = ⊥
IsGoroutineStep _ = Unit

-- Neither ended, nor waiting with a channel.
pub IsLoose : Option Stage → Type 0
IsLoose (some looping) = Unit
IsLoose (some (waiting none)) = Unit
IsLoose _ = ⊥

record IsLeaking (i : ℕ) (s : Heartbeats) : Type 0 where
  no_channel : s.stop_heartbeat ≡ none
  alive : s.cancelled ≡ false
  loose : IsLoose (get_elem? s.goroutines i)

Leaves : ℕ → Outcome → Type 0
Leaves i (moved s) = IsLeaking i s
Leaves i _ = Unit

set_at-IsLoose :
    (i j : ℕ) (x : Stage) (xs : List Stage)
    → (j ≡ i → IsLoose (some x))
    → IsLoose (get_elem? xs i)
    → IsLoose (get_elem? (set_at j x xs) i)
unfolding set_at
set_at-IsLoose i j x [] k h = h
set_at-IsLoose zero zero x (y ∷ ys) k h = k refl
set_at-IsLoose (suc i) zero x (y ∷ ys) k h = h
set_at-IsLoose zero (suc j) x (y ∷ ys) k h = h
set_at-IsLoose (suc i) (suc j) x (y ∷ ys) k h = set_at-IsLoose i j x ys (λ e. k (ap suc e)) h

put-IsLeaking :
    (i j : ℕ) (x : Stage) (s : Heartbeats)
    → (j ≡ i → IsLoose (some x))
    → IsLeaking i s
    → IsLeaking i (put j x s)
unfolding put
put-IsLeaking i j x s k h = record {
  no_channel = h.no_channel;
  alive = h.alive;
  loose = set_at-IsLoose i j x s.goroutines k h.loose;
}

make_ticker-Leaves :
    (i j : ℕ) (s : Heartbeats) (o : Option Stage) → IsLeaking i s → Leaves i (make_ticker j s o)
unfolding make_ticker Leaves IsLoose
make_ticker-Leaves i j s none h = tt
make_ticker-Leaves i j s (some (starting seconds)) h = go (is_positive seconds)
  where
    go : (b : Bool) → Leaves i (if b then moved (put j looping s) else panicked)
    go true = put-IsLeaking i j looping s (λ e. tt) h
    go false = tt
make_ticker-Leaves i j s (some looping) h = tt
make_ticker-Leaves i j s (some (waiting c)) h = tt
make_ticker-Leaves i j s (some ended) h = tt

enter-Leaves :
    (i j : ℕ) (s : Heartbeats) (o : Option Stage) → IsLeaking i s → Leaves i (enter j s o)
unfolding enter Leaves IsLoose
enter-Leaves i j s none h = tt
enter-Leaves i j s (some (starting seconds)) h = tt
enter-Leaves i j s (some looping) h = put-IsLeaking i j _ s (λ e. rw (h.no_channel) tt) h
enter-Leaves i j s (some (waiting c)) h = tt
enter-Leaves i j s (some ended) h = tt

receive-Leaves :
    (i j : ℕ) (s : Heartbeats) (o : Option Stage)
    → get_elem? s.goroutines j ≡ o
    → IsLeaking i s
    → Leaves i (receive j s o)
unfolding receive Leaves IsLoose
receive-Leaves i j s none at h = tt
receive-Leaves i j s (some (starting seconds)) at h = tt
receive-Leaves i j s (some looping) at h = tt
receive-Leaves i j s (some (waiting none)) at h = tt
receive-Leaves i j s (some (waiting (some c))) at h = ends (is_closed c s.closed)
  where
    other : j ≡ i → IsLoose (some (waiting (some c)))
    other e = subst IsLoose (ap (get_elem? s.goroutines) (sym e) ∙ at) h.loose

    ends : (b : Bool) → Leaves i (if b then moved (put j ended s) else blocked)
    ends true = put-IsLeaking i j ended s other h
    ends false = tt
receive-Leaves i j s (some ended) at h = tt

beat-Leaves :
    (sent : Bool) (i j : ℕ) (s : Heartbeats) (o : Option Stage)
    → IsLeaking i s
    → Leaves i (beat sent j s o)
unfolding beat Leaves IsLoose
beat-Leaves sent i j s none h = tt
beat-Leaves sent i j s (some (starting seconds)) h = tt
beat-Leaves sent i j s (some looping) h = tt
beat-Leaves sent i j s (some (waiting c)) h =
    let rest = put-IsLeaking i j looping s (λ e. tt) h in
    record { no_channel = rest.no_channel; alive = rest.alive; loose = rest.loose }
beat-Leaves sent i j s (some ended) h = tt

finish-Leaves :
    (i j : ℕ) (s : Heartbeats) (o : Option Stage) → IsLeaking i s → Leaves i (finish j s o)
unfolding finish Leaves
finish-Leaves i j s none h = tt
finish-Leaves i j s (some (starting seconds)) h = tt
finish-Leaves i j s (some looping) h = tt
finish-Leaves i j s (some (waiting c)) h = rw (h.alive) tt
finish-Leaves i j s (some ended) h = tt

act-Leaves :
    (i : ℕ) (a : Action) (s : Heartbeats) → IsGoroutineStep a → IsLeaking i s → Leaves i (act a s)
unfolding act IsGoroutineStep
act-Leaves i (start seconds) s g h = absurd g
act-Leaves i stop s g h = absurd g
act-Leaves i cancel s g h = absurd g
act-Leaves i (select_ j) s g h = enter-Leaves i j s _ h
act-Leaves i (stopped j) s g h = receive-Leaves i j s _ refl h
act-Leaves i (tick j) s g h = beat-Leaves true i j s _ h
act-Leaves i (tick_failed j) s g h = beat-Leaves false i j s _ h
act-Leaves i (ticker j) s g h = make_ticker-Leaves i j s _ h
act-Leaves i (done j) s g h = finish-Leaves i j s _ h

and_then-Leaves :
    (i : ℕ) (o : Outcome) (f : Heartbeats → Outcome)
    → Leaves i o
    → ((t : Heartbeats) → IsLeaking i t → Leaves i (f t))
    → Leaves i (and_then o f)
unfolding and_then Leaves
and_then-Leaves i (moved t) f h k = k t h
and_then-Leaves i blocked f h k = tt
and_then-Leaves i panicked f h k = tt

run_actions-Leaves :
    (i : ℕ) (actions : List Action) (s : Heartbeats)
    → All IsGoroutineStep actions
    → IsLeaking i s
    → Leaves i (run_actions actions s)
unfolding run_actions Leaves
run_actions-Leaves i [] s _ h = h
run_actions-Leaves i (a ∷ rest) s (g, gs) h =
    and_then-Leaves i (act a s) (run_actions rest) (act-Leaves i a s g h)
      (λ t k. run_actions-Leaves i rest t gs k)

stop_running-Leaves :
    (i : ℕ) (o : Option ℕ) (s : Heartbeats)
    → s.cancelled ≡ false
    → IsLoose (get_elem? s.goroutines i)
    → Leaves i (and_then (stop_running o s) (λ t. moved (record t { stop_heartbeat = none })))
unfolding stop_running and_then Leaves
stop_running-Leaves i none s alive loose = record {
  no_channel = refl;
  alive = alive;
  loose = loose;
}
stop_running-Leaves i (some c) s alive loose = go (is_closed c s.closed)
  where
    go :
        (b : Bool)
        → Leaves i (
            and_then
              (if b then panicked else moved (record s { closed = c ∷ s.closed }))
              (λ t. moved (record t { stop_heartbeat = none })))
    go true = tt
    go false = record { no_channel = refl; alive = alive; loose = loose }

set_at-same :
    (i : ℕ) (x y : Stage) (xs : List Stage)
    → get_elem? xs i ≡ some y
    → get_elem? (set_at i x xs) i ≡ some x
unfolding set_at
set_at-same i x y [] h = cc
set_at-same zero x y (z ∷ zs) h = refl
set_at-same (suc i) x y (z ∷ zs) h = set_at-same i x y zs h

-- What a loose goroutine does to send its next heartbeat.
pub next_beat : ℕ → Option Stage → List Action
next_beat i (some (waiting c)) = tick i ∷ []
next_beat i _ = select_ i ∷ tick i ∷ []

pub BeatsAgain : Heartbeats → Outcome → Type 0
BeatsAgain s (moved t) = t.beats ≡ suc s.beats
BeatsAgain s _ = ⊥

next_beat-BeatsAgain :
    (i : ℕ) (s : Heartbeats) (o : Option Stage)
    → get_elem? s.goroutines i ≡ o
    → IsLoose o
    → BeatsAgain s (run_actions (next_beat i o) s)
unfolding next_beat run_actions act enter beat put and_then BeatsAgain IsLoose
next_beat-BeatsAgain i s none at h = absurd h
next_beat-BeatsAgain i s (some (starting seconds)) at h = absurd h
next_beat-BeatsAgain i s (some looping) at h =
    rw (at, set_at-same i (waiting s.stop_heartbeat) looping s.goroutines at) refl
next_beat-BeatsAgain i s (some (waiting c)) at h = rw at refl
next_beat-BeatsAgain i s (some ended) at h = absurd h

-- A goroutine that is outside of its `select` when `Close` runs is not stopped by it: whatever the
-- goroutines do afterwards, it has not ended, waits with no channel or is outside of its `select`,
-- and can send one more heartbeat, if its context is not done and no heartbeat is started.
pub close_heartbeat_leak :
    (later : List Action) (s t u : Heartbeats) (i : ℕ)
    → get_elem? s.goroutines i ≡ some looping
    → s.cancelled ≡ false
    → act stop s ≡ moved t
    → All IsGoroutineStep later
    → run_actions later t ≡ moved u
    → IsLoose (get_elem? u.goroutines i)
      × BeatsAgain u (run_actions (next_beat i (get_elem? u.goroutines i)) u)
unfolding act close_heartbeat Leaves IsLoose
close_heartbeat_leak later s t u i at alive now steps run_ =
    let leaking : IsLeaking i t =
      subst (Leaves i) now
        (stop_running-Leaves i s.stop_heartbeat s alive (subst IsLoose (sym at) tt)) in
    let after : IsLeaking i u =
      subst (Leaves i) run_ (run_actions-Leaves i later t steps leaking) in
    (after.loose, next_beat-BeatsAgain i u _ refl after.loose)
