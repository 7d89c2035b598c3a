-- ===== src/Protocol/Heartbeat/Tests.antt =====
-- Interleavings of two heartbeats and `Close`.
use go_steam.Base.{◌≡◌, refl, false, none, some, [], ◌∷◌, List, get_elem?}
use go_steam.Protocol.State.{is_positive}
use go_steam.Protocol.Heartbeat.{
  Heartbeats, waiting, looping, ended, no_heartbeats, moved, is_closed, stop_running, and_then,
  spawn, start_heartbeat, close_heartbeat, set_at, put, make_ticker, enter, Action, start, stop,
  ticker, select_, stopped, tick, act, run_actions,
}
use go_steam.Protocol.Heartbeat.Channels.Steps.{close_heartbeat-stopped}
use go_steam.Protocol.Heartbeat.Leak.{
  IsGoroutineStep, IsLoose, BeatsAgain, next_beat, close_heartbeat_leak,
}

-- Two heartbeats, the second with no seconds, and `Close`.
abbrev restarted : List Action
restarted = start 30 ∷ ticker 0 ∷ select_ 0 ∷ tick 0 ∷ start 0 ∷ stop ∷ ticker 1 ∷ stop ∷ []

-- The heartbeat is started and waits.
abbrev waits : Heartbeats
waits = record {
  stop_heartbeat = some 0;
  made = 1;
  closed = [];
  goroutines = waiting (some 0) ∷ [];
  cancelled = false;
  beats = 0;
  errors = 0;
}

abbrev waits_no_more : Heartbeats
waits_no_more = record waits { stop_heartbeat = none; closed = 0 ∷ [] }

close_heartbeat-stopped_example : act (stopped 0) waits_no_more ≡ moved (put 0 ended waits_no_more)
unfolding act run_actions no_heartbeats start_heartbeat close_heartbeat stop_running and_then spawn
    make_ticker is_positive enter set_at put is_closed
close_heartbeat-stopped_example =
    close_heartbeat-stopped (start 30 ∷ ticker 0 ∷ select_ 0 ∷ []) waits waits_no_more 0 0 refl refl
      refl

-- The heartbeat sends when `Close` runs, and then enters its `select` again.
abbrev sends : Heartbeats
sends = record waits { goroutines = looping ∷ []; beats = 1 }

abbrev sends_no_more : Heartbeats
sends_no_more = record sends { stop_heartbeat = none; closed = 0 ∷ [] }

abbrev waits_for_ever : Heartbeats
waits_for_ever = record sends_no_more { goroutines = waiting none ∷ [] }

close_heartbeat_leak_example :
    IsLoose (get_elem? waits_for_ever.goroutines 0)
    × BeatsAgain waits_for_ever
        (run_actions (next_beat 0 (get_elem? waits_for_ever.goroutines 0)) waits_for_ever)
unfolding act run_actions close_heartbeat stop_running IsGoroutineStep and_then enter set_at put
    is_closed
close_heartbeat_leak_example =
    close_heartbeat_leak (select_ 0 ∷ []) sends sends_no_more waits_for_ever 0 refl refl refl
      (tt, tt) refl
