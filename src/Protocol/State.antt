-- ===== src/Protocol/State.antt =====
-- The state of `Protocol` (protocol/protocol.go) with its events (protocol/events.go), the
-- connection behind the interface `Connection`, and the calls that the handlers are made of. A call
-- that fails keeps what it changed before.
use go_steam.Base.{
  ℕ, suc, Bool, true, false, Option, none, [], ◌∷◌, ◌++◌, List, Bytes, if◌then◌else◌, ltb, ◌&&◌,
  ◌^◌,
}
use go_steam.Base.Results.{Result, ok, err}
use go_steam.Protocol.Message.{Header, MessageError}

-- The errors. `nil_heartbeat`, `ticker_panic` and `too_deep` are the model's own: a nil pointer, the
-- panic of `time.NewTicker`, both of which end the program, and messages packed deeper than asked for.
pub data ProtocolError : Type 0 where
  message_error : MessageError → ProtocolError
  unsupported_protocol unsupported_universe encrypt_failed log_on_failed : ℕ → ProtocolError
  nonce_missing session_key_failed body_invalid nil_heartbeat ticker_panic empty_multi :
      ProtocolError
  gzip_failed size_mismatch sub_message_size sub_message_short : ProtocolError
  marshal_failed send_failed read_failed_ too_deep : ProtocolError

-- The events that the package emits; `message_sent` and `message_received` carry the header whose
-- JSON text the code puts there.
pub data Event : Type 0 where
  message_sent : ℕ → Header → Event
  message_received : ℕ → Header → Event
  connected : Event
  logged_on : (steam_id session_id : ℕ) → Event
  item_announcements : ℕ → Event
  user_notification : (kind count : ℕ) → Event
  failed : ProtocolError → Event

-- The interface `Connection`, over its implementation's state. `Read` returns no reader at the end.
pub record Connection (C : Type 0) : Type 0 where
  pub close : C → C
  pub set_session_key : C → Bytes → C
  pub send : C → Bytes → Result (Unit {0}) (Unit {0}) × C
  pub read : C → Result (Unit {0}) (Option Bytes) × C

-- Whether the int32 with these bits is positive, as `time.NewTicker` wants of an interval.
unfoldable pub is_positive : ℕ → Bool
is_positive seconds = ltb 0 seconds && ltb seconds (2 ^ 31)

-- The fields of `Protocol`, with the events that were taken from the channel, in order, and the
-- number of sends on the channel that did not wait. A running heartbeat has its seconds.
pub record Protocol (C : Type 0) : Type 0 where
  pub connection : C
  pub session_key : Bytes
  pub heartbeat : Option ℕ
  pub steam_id : ℕ
  pub session_id : ℕ
  pub events : List Event
  pub offers : ℕ

-- `NewProtocol` with a connection.
unfoldable pub new_protocol : {C : Type 0} → C → Protocol C
new_protocol c = record {
  connection = c;
  session_key = [];
  heartbeat = none;
  steam_id = 0;
  session_id = 0;
  events = [];
  offers = 0;
}

-- A call on the protocol: its result, and the state that it leaves.
abbrev pub M : Type 0 → Type 0 → Type 0
M C A = Protocol C → Result ProtocolError A × Protocol C

infixl 5 ◌>>=◌ ◌>>◌
unfoldable pub and_then :
    {C A B : Type 0}
    → Result ProtocolError A × Protocol C
    → (A → M C B)
    → Result ProtocolError B × Protocol C
and_then (ok a, h) f = f a h
and_then (err e, h) f = (err e, h)

abbrev pub ◌>>=◌ : {C A B : Type 0} → M C A → (A → M C B) → M C B
m >>= f = λ h. and_then (m h) f

abbrev pub ◌>>◌ : {C B : Type 0} → M C (Unit {0}) → M C B → M C B
m >> k = m >>= λ _. k

abbrev pub pure : {C A : Type 0} → A → M C A
pure a = λ h. (ok a, h)

abbrev pub fail : {C A : Type 0} → ProtocolError → M C A
fail e = λ h. (err e, h)

-- A call that only computes.
abbrev pub lift : {C A : Type 0} → Result ProtocolError A → M C A
lift r = λ h. (r, h)

abbrev pub get : {C : Type 0} → M C (Protocol C)
get = λ h. (ok h, h)

abbrev pub modify : {C : Type 0} → (Protocol C → Protocol C) → M C (Unit {0})
modify f = λ h. (ok tt, f h)

-- `h.events <- e`, which waits until the event is taken.
abbrev pub emit : {C : Type 0} → Event → M C (Unit {0})
emit e = modify (λ h. record h { events = h.events ++ e ∷ [] })

-- `select { case h.events <- e: default: }`: the event is dropped unless the channel is ready;
-- `ready i` says whether it is at the send with number `i`.
abbrev pub offer : {C : Type 0} → (ℕ → Bool) → Event → M C (Unit {0})
offer ready e = modify (λ h. record h {
  events = if ready h.offers then h.events ++ e ∷ [] else h.events;
  offers = suc h.offers;
})

-- What each step of a chain keeps of the protocol, the chain keeps.
pub and_then_keeps :
    {C A B : Type 0} (P : Protocol C → Type 0) (x : Result ProtocolError A × Protocol C)
    (f : A → M C B)
    → P x.1
    → ((a : A) (h : Protocol C) → P h → P (f a h).1)
    → P (and_then x f).1
unfolding and_then
and_then_keeps P (ok a, h) f x k = k a h x
and_then_keeps P (err e, h) f x k = x

pub if_keeps :
    {C : Type 0} (P : Protocol C → Type 0) (b : Bool) (m n : M C (Unit {0})) (h : Protocol C)
    → P (m h).1
    → P (n h).1
    → P ((if b then m else n) h).1
if_keeps P true m n h x y = x
if_keeps P false m n h x y = y
