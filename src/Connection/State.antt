-- ===== src/Connection/State.antt =====
-- connection/state.go, and the methods of `TCPConnection` that read or change its state: each holds
-- the mutex from its first read to its last write, so it is one step.
use go_steam.Base.{
  ℕ, Bool, true, false, [], ◌∷◌, ◌≡◌, ◌≢◌, refl, ap, ◌∙◌, Bytes, codes, length, ◌==◌, if◌then◌else◌,
  arith,
}

pub data State : Type 0 where
  disconnecting connected_unencrypted connected_encrypted : State

-- The fields of `TCPConnection` but for the network connection; no session key is the empty one.
pub record TcpConnection : Type 0 where
  pub state : State
  pub session_key : Bytes

-- The connection that `NewTCPConnection` returns.
abbrev pub new_tcp_connection : TcpConnection
new_tcp_connection = record { state = connected_unencrypted; session_key = [] }

abbrev pub is_disconnecting : State → Bool
is_disconnecting disconnecting = true
is_disconnecting connected_unencrypted = false
is_disconnecting connected_encrypted = false

state_string : State → Bytes
state_string disconnecting = codes "Disconnecting"
state_string connected_unencrypted = codes "ConnectedUnencrypted"
state_string connected_encrypted = codes "ConnectedEncrypted"

-- `if c.state == StateConnectedUnencrypted { c.state = StateConnectedEncrypted }`
unfoldable pub encrypted_state : State → State
encrypted_state connected_unencrypted = connected_encrypted
encrypted_state s = s

pub set_session_key : TcpConnection → Bytes → TcpConnection
set_session_key c key =
    if length key == 0 then c else record { state = encrypted_state c.state; session_key = key }

-- The state change of `Close`; what closing the network connection returns is its result.
pub close : TcpConnection → TcpConnection
close c = record c { state = disconnecting }

is_connected : TcpConnection → Bool
is_connected c = elim c.state [ disconnecting ↦ false | _ ↦ true ]

is_encrypted : TcpConnection → Bool
is_encrypted c = elim c.state [ connected_encrypted ↦ true | _ ↦ false ]

-- Any number of calls of the two methods that change the state, in any order.
pub data Reach : TcpConnection → TcpConnection → Type 0 where
  here : {c : TcpConnection} → Reach c c
  key_set : {c d : TcpConnection} (key : Bytes) → Reach c d → Reach c (set_session_key d key)
  closed : {c d : TcpConnection} → Reach c d → Reach c (close d)

-- While it is connected, a connection is in the encrypted state exactly if it has a session key.
pub record IsConsistent (c : TcpConnection) : Type 0 where
  pub keyed : c.state ≡ connected_encrypted → c.session_key ≢ []
  pub unkeyed : c.state ≡ connected_unencrypted → c.session_key ≡ []

pub set_session_key_set :
    (c : TcpConnection) (b : ℕ) (key : Bytes)
    → set_session_key c (b ∷ key)
      ≡ record { state = encrypted_state c.state; session_key = b ∷ key }
unfolding set_session_key
set_session_key_set c b key = ground arith

set_session_key_empty : (c : TcpConnection) → set_session_key c [] ≡ c
unfolding set_session_key
set_session_key_empty c = refl

encrypted_state-ne-unencrypted : (s : State) → encrypted_state s ≢ connected_unencrypted
unfolding encrypted_state
encrypted_state-ne-unencrypted disconnecting e = cc
encrypted_state-ne-unencrypted connected_unencrypted e = cc
encrypted_state-ne-unencrypted connected_encrypted e = cc

set_session_key-IsConsistent :
    {c : TcpConnection} (key : Bytes) → IsConsistent c → IsConsistent (set_session_key c key)
set_session_key-IsConsistent [] h = unfold set_session_key in h
set_session_key-IsConsistent {c} (b ∷ key) h =
    rw (set_session_key_set c b key) (record {
      keyed = λ _ e. cc;
      unkeyed = λ e. absurd (encrypted_state-ne-unencrypted c.state e);
    })

close-IsConsistent : {c : TcpConnection} → IsConsistent c → IsConsistent (close c)
unfolding close
close-IsConsistent h = record { keyed = λ e. cc; unkeyed = λ e. cc }

Reach-IsConsistent : {c d : TcpConnection} → IsConsistent c → Reach c d → IsConsistent d
Reach-IsConsistent h here = h
Reach-IsConsistent h (key_set key r) = set_session_key-IsConsistent key (Reach-IsConsistent h r)
Reach-IsConsistent h (closed r) = close-IsConsistent (Reach-IsConsistent h r)

-- After any calls of `SetSessionKey` and `Close` on a new connection, the connection is in the
-- encrypted state only with a session key, and in the unencrypted state only without one.
pub Reach-new-IsConsistent : (c : TcpConnection) → Reach new_tcp_connection c → IsConsistent c
Reach-new-IsConsistent c r = Reach-IsConsistent (record { keyed = λ e. cc; unkeyed = λ e. refl }) r

-- A connection that is disconnecting stays so, whatever is called.
Reach-disconnecting :
    {c d : TcpConnection} → Reach c d → c.state ≡ disconnecting → d.state ≡ disconnecting
Reach-disconnecting here h = h
Reach-disconnecting (key_set {d = d} [] r) h =
    ap (λ (e : TcpConnection). e.state) (set_session_key_empty d) ∙ Reach-disconnecting r h
Reach-disconnecting (key_set {d = d} (b ∷ key) r) h =
    ap (λ (e : TcpConnection). e.state) (set_session_key_set d b key)
    ∙ ap encrypted_state (Reach-disconnecting r h)
    ∙ unfold encrypted_state in refl
Reach-disconnecting (closed r) h = unfold close in refl
