-- ===== src/Protocol/Heartbeat/Channels.antt =====
-- The stop channels: none is closed twice, and a goroutine waits on one that stops it.
pub mod Steps
pub mod Panics
use go_steam.Base.{
  ℕ, zero, suc, ◌<◌, ◌≡◌, ◌≢◌, refl, sym, ◌∙◌, ◌⊎◌, inl, inr, Bool, true, false, Option, none, some,
  [], ◌∷◌, List, get_elem?, ◌==◌, if◌then◌else◌, All, All-append, arith,
}
use mathlib.Core.Path.{subst}
use go_steam.Protocol.State.{is_positive}
use go_steam.Protocol.Heartbeat.{
  Stage, starting, looping, waiting, ended, Heartbeats, no_heartbeats, Outcome, moved, blocked,
  panicked, is_closed, stop_running, and_then, spawn, start_heartbeat, close_heartbeat, set_at, put,
  enter, receive, beat, finish, Action, start, stop, cancel, select_, stopped, tick, done, act,
  run_actions,
}

-- The closed channels behind the test of the field.
close_field : Option ℕ → List ℕ → List ℕ
close_field none ds = ds
close_field (some c) ds = c ∷ ds

eq_refl : (c : ℕ) → (c == c) ≡ true
eq_refl c = ground arith

is_closed-cons :
    (c d : ℕ) (ds : List ℕ) → is_closed c (d ∷ ds) ≡ true → (c ≡ d) ⊎ (is_closed c ds ≡ true)
unfolding is_closed
is_closed-cons c d ds h = ground arith

is_closed-head : (c : ℕ) (ds : List ℕ) → is_closed c (c ∷ ds) ≡ true
unfolding is_closed
is_closed-head c ds = rw (eq_refl c) refl

is_closed-tail : (c d : ℕ) (ds : List ℕ) → is_closed c ds ≡ true → is_closed c (d ∷ ds) ≡ true
unfolding is_closed
is_closed-tail c d ds h = ground arith

some-injective : (c d : ℕ) → ◌≡◌ {A = Option ℕ} (some c) (some d) → c ≡ d
some-injective c d h = cc

started : ℕ → Heartbeats → Heartbeats
started seconds s = spawn seconds (record s { closed = close_field s.stop_heartbeat s.closed })

halted : Heartbeats → Heartbeats
halted s = record s { closed = close_field s.stop_heartbeat s.closed; stop_heartbeat = none }

not_true : (b : Bool) → b ≢ true → b ≡ false
not_true true h = absurd (h refl)
not_true false h = refl

module _ (P : ℕ → Type 0) where
  -- The channel that a goroutine waits for is the field's, or it is closed; one that makes its ticker
  -- has seconds with `P`.
  IsServed : Option ℕ → List ℕ → Stage → Type 0
  IsServed field ds (starting seconds) = P seconds
  IsServed field ds (waiting (some c)) = (field ≡ some c) ⊎ (is_closed c ds ≡ true)
  IsServed field ds _ = Unit

  record IsSound (s : Heartbeats) : Type 0 where
    current : (c : ℕ) → s.stop_heartbeat ≡ some c → (c < s.made) × (is_closed c s.closed ≡ false)
    fresh : (c : ℕ) → is_closed c s.closed ≡ true → c < s.made
    served : All (IsServed s.stop_heartbeat s.closed) s.goroutines

  -- A step that is taken leaves a sound state, and one that panics makes a ticker whose interval is not
  -- positive.
  pub IsSafe : Outcome → Type 0
  IsSafe (moved s) = IsSound s
  IsSafe blocked = Unit
  IsSafe panicked = (seconds : ℕ) × P seconds × (is_positive seconds ≡ false)

  -- What was served before the field's channel is closed is served after that, whatever the field is.
  IsServed-close_field :
      (field next : Option ℕ) (ds : List ℕ) (x : Stage)
      → IsServed field ds x
      → IsServed next (close_field field ds) x
  unfolding IsServed close_field
  IsServed-close_field field next ds (starting seconds) h = h
  IsServed-close_field field next ds looping h = tt
  IsServed-close_field field next ds ended h = tt
  IsServed-close_field field next ds (waiting none) h = tt
  IsServed-close_field none next ds (waiting (some c)) (inl e) = cc
  IsServed-close_field none next ds (waiting (some c)) (inr e) = inr e
  IsServed-close_field (some d) next ds (waiting (some c)) (inl e) =
      inr (rw (some-injective d c e) (is_closed-head c ds))
  IsServed-close_field (some d) next ds (waiting (some c)) (inr e) = inr (is_closed-tail c d ds e)

  All-close_field :
      (field next : Option ℕ) (ds : List ℕ) (xs : List Stage)
      → All (IsServed field ds) xs
      → All (IsServed next (close_field field ds)) xs
  All-close_field field next ds [] h = tt
  All-close_field field next ds (x ∷ xs) (hx, h) =
      (IsServed-close_field field next ds x hx, All-close_field field next ds xs h)

  close_field-fresh :
      (o : Option ℕ) (s : Heartbeats) (c : ℕ)
      → s.stop_heartbeat ≡ o
      → IsSound s
      → is_closed c (close_field o s.closed) ≡ true
      → c < s.made
  unfolding close_field
  close_field-fresh none s c e inv h = inv.fresh c h
  close_field-fresh (some d) s c e inv h = elim (is_closed-cons c d s.closed h) [
    | inl same ↦ rw same (inv.current d e).0
    | inr old ↦ inv.fresh c old
  ]

  stop_running-closes :
      (o : Option ℕ) (s : Heartbeats)
      → s.stop_heartbeat ≡ o
      → IsSound s
      → stop_running o s ≡ moved (record s { closed = close_field o s.closed })
  unfolding stop_running close_field
  stop_running-closes none s e inv = refl
  stop_running-closes (some c) s e inv = rw ((inv.current c e).1) refl

  -- The calls in a sound state: neither panics, and both close the channel of the field.
  start_heartbeat-started :
      (seconds : ℕ) (s : Heartbeats)
      → IsSound s
      → start_heartbeat seconds s ≡ moved (started seconds s)
  unfolding start_heartbeat and_then started
  start_heartbeat-started seconds s inv = rw (stop_running-closes s.stop_heartbeat s refl inv) refl

  close_heartbeat-halted : (s : Heartbeats) → IsSound s → close_heartbeat s ≡ moved (halted s)
  unfolding close_heartbeat and_then halted
  close_heartbeat-halted s inv = rw (stop_running-closes s.stop_heartbeat s refl inv) refl

  started-IsSound :
      (seconds : ℕ) (s : Heartbeats) → P seconds → IsSound s → IsSound (started seconds s)
  unfolding started spawn IsServed
  started-IsSound seconds s allowed inv = record {
    current = λ c e. (
      omega (arith, some-injective s.made c e),
      not_true _ (λ h. absurd (
          omega
            (arith, some-injective s.made c e, close_field-fresh s.stop_heartbeat s c refl inv h))),
    );
    fresh = λ c h. omega (arith, close_field-fresh s.stop_heartbeat s c refl inv h);
    served =
        All-append _ s.goroutines (starting seconds ∷ []) (All-close_field _ _ _ _ inv.served)
          (allowed, tt);
  }

  halted-IsSound : (s : Heartbeats) → IsSound s → IsSound (halted s)
  unfolding halted
  halted-IsSound s inv = record {
    current = λ c e. cc;
    fresh = λ c h. close_field-fresh s.stop_heartbeat s c refl inv h;
    served = All-close_field _ _ _ _ inv.served;
  }

  All-set_at :
      (P : Stage → Type 0) (i : ℕ) (x : Stage) (xs : List Stage)
      → P x
      → All P xs
      → All P (set_at i x xs)
  unfolding set_at
  All-set_at P i x [] hx h = tt
  All-set_at P zero x (y ∷ ys) hx (hy, h) = (hx, h)
  All-set_at P (suc i) x (y ∷ ys) hx (hy, h) = (hy, All-set_at P i x ys hx h)

  put-IsSound :
      (i : ℕ) (x : Stage) (s : Heartbeats)
      → IsServed s.stop_heartbeat s.closed x
      → IsSound s
      → IsSound (put i x s)
  unfolding put
  put-IsSound i x s hx inv = record {
    current = inv.current;
    fresh = inv.fresh;
    served = All-set_at _ i x s.goroutines hx inv.served;
  }

  field-IsServed : (o : Option ℕ) (ds : List ℕ) → IsServed o ds (waiting o)
  unfolding IsServed
  field-IsServed none ds = tt
  field-IsServed (some c) ds = inl refl
