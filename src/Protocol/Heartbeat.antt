-- ===== src/Protocol/Heartbeat.antt =====
-- The goroutines of protocol/heartbeat.go and the stop channels that `startHeartbeat` and `Close`
-- (protocol/protocol.go) close, as steps that interleave in any order. The two calls hold the mutex,
-- so each is one step; the goroutines read the field of the stop channel without it. A panic in a
-- goroutine ends the program.
pub mod Channels
pub mod Leak
pub mod Tests
use go_steam.Base.{
  ℕ, zero, suc, Bool, true, false, Option, none, some, [], ◌∷◌, ◌++◌, List, get_elem?, ◌==◌,
  if◌then◌else◌, ◌||◌,
}
use go_steam.Protocol.State.{is_positive}

-- Where a goroutine stands: before `time.NewTicker` with its seconds, outside of its `select`, in it
-- with the channel that the field held when it was entered, where nil is none, or behind its return.
pub data Stage : Type 0 where
  starting : ℕ → Stage
  looping : Stage
  waiting : Option ℕ → Stage
  ended : Stage

-- The field `stopHeartbeat`, the number of channels made, those that were closed, the goroutines in
-- the order of their start, whether their context is done, the heartbeats that they sent, and the
-- events with the errors of those that could not be sent.
pub record Heartbeats : Type 0 where
  pub stop_heartbeat : Option ℕ
  pub made : ℕ
  pub closed : List ℕ
  pub goroutines : List Stage
  pub cancelled : Bool
  pub beats : ℕ
  pub errors : ℕ

pub no_heartbeats : Heartbeats
no_heartbeats = record {
  stop_heartbeat = none;
  made = 0;
  closed = [];
  goroutines = [];
  cancelled = false;
  beats = 0;
  errors = 0;
}

-- A step is taken, cannot be taken in this state, or panics.
pub data Outcome : Type 0 where
  moved : Heartbeats → Outcome
  blocked panicked : Outcome

pub is_closed : ℕ → List ℕ → Bool
is_closed c [] = false
is_closed c (d ∷ ds) = c == d || is_closed c ds

-- `if h.stopHeartbeat != nil { close(h.stopHeartbeat) }`; closing a closed channel panics.
pub stop_running : Option ℕ → Heartbeats → Outcome
stop_running none s = moved s
stop_running (some c) s =
    if is_closed c s.closed then panicked else moved (record s { closed = c ∷ s.closed })

-- A step and what follows it.
pub and_then : Outcome → (Heartbeats → Outcome) → Outcome
and_then (moved s) f = f s
and_then blocked f = blocked
and_then panicked f = panicked

-- A new channel, and a goroutine.
spawn : ℕ → Heartbeats → Heartbeats
spawn seconds s = record s {
  stop_heartbeat = some s.made;
  made = suc s.made;
  goroutines = s.goroutines ++ starting seconds ∷ [];
}

-- The interval is the seconds, an int32.
pub start_heartbeat : ℕ → Heartbeats → Outcome
start_heartbeat seconds s =
    and_then (stop_running s.stop_heartbeat s) (λ t. moved (spawn seconds t))

-- What `Close` does before it closes the connection.
pub close_heartbeat : Heartbeats → Outcome
close_heartbeat s =
    and_then (stop_running s.stop_heartbeat s) (λ t. moved (record t { stop_heartbeat = none }))

pub set_at : ℕ → Stage → List Stage → List Stage
set_at i x [] = []
set_at zero x (y ∷ ys) = x ∷ ys
set_at (suc i) x (y ∷ ys) = y ∷ set_at i x ys

pub put : ℕ → Stage → Heartbeats → Heartbeats
put i x s = record s { goroutines = set_at i x s.goroutines }

-- A goroutine calls `time.NewTicker`, which panics unless the interval is positive.
make_ticker : ℕ → Heartbeats → Option Stage → Outcome
make_ticker i s (some (starting seconds)) =
    if is_positive seconds then moved (put i looping s) else panicked
make_ticker i s _ = blocked

-- A goroutine enters its `select`, which reads the field.
enter : ℕ → Heartbeats → Option Stage → Outcome
enter i s (some looping) = moved (put i (waiting s.stop_heartbeat) s)
enter i s _ = blocked

-- It receives from its channel, which takes a closed one.
receive : ℕ → Heartbeats → Option Stage → Outcome
receive i s (some (waiting (some c))) =
    if is_closed c s.closed then moved (put i ended s) else blocked
receive i s _ = blocked

-- It receives a tick and calls `Send`, whose error, if it does not succeed, becomes an event once that
-- is taken.
beat : Bool → ℕ → Heartbeats → Option Stage → Outcome
beat sent i s (some (waiting c)) = moved (record (put i looping s) {
  beats = if sent then suc s.beats else s.beats;
  errors = if sent then s.errors else suc s.errors;
})
beat sent i s _ = blocked

-- It finds its context done.
finish : ℕ → Heartbeats → Option Stage → Outcome
finish i s (some (waiting c)) = if s.cancelled then moved (put i ended s) else blocked
finish i s _ = blocked

-- The calls, the end of the context, and the steps of the goroutine with an index. A tick is one whose
-- heartbeat is sent, or not.
pub data Action : Type 0 where
  start : (seconds : ℕ) → Action
  stop cancel : Action
  ticker select_ stopped tick tick_failed done : ℕ → Action

pub act : Action → Heartbeats → Outcome
act (start seconds) s = start_heartbeat seconds s
act stop s = close_heartbeat s
act cancel s = moved (record s { cancelled = true })
act (ticker i) s = make_ticker i s (get_elem? s.goroutines i)
act (select_ i) s = enter i s (get_elem? s.goroutines i)
act (stopped i) s = receive i s (get_elem? s.goroutines i)
act (tick i) s = beat true i s (get_elem? s.goroutines i)
act (tick_failed i) s = beat false i s (get_elem? s.goroutines i)
act (done i) s = finish i s (get_elem? s.goroutines i)

-- An interleaving.
pub run_actions : List Action → Heartbeats → Outcome
run_actions [] s = moved s
run_actions (a ∷ as_) s = and_then (act a s) (run_actions as_)
