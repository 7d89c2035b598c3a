-- ===== src/Connection/Tcp.antt =====
-- `Send` and `Read` of connection/tcp.go. What happens around a call comes in as arguments: the
-- bytes that arrive, the fault of each write, and whether the state is found to be disconnecting
-- when an error is looked at, since another goroutine may have called `Close` by then.
pub mod Framing
pub mod Reads
use go_steam.Base.{
  ℕ, ◌*◌, ◌%◌, ◌^◌, Bool, true, false, ◌&&◌, not, Option, none, some, [], ◌∷◌, ◌++◌, Bytes, length,
  ltb, ◌==◌, if◌then◌else◌,
}
use go_steam.Base.Binary.{le_bytes}
use go_steam.Base.Results.{Result, ok, err, guard, wrap_err, ◌>>=◌, ◌>>◌}
use go_steam.Crypto.Primitives.{Primitives, CryptoError}
use go_steam.Crypto.Symmetric.{symmetric_encrypt_with_hmac_iv, symmetric_decrypt}
use go_steam.Connection.State.{TcpConnection, is_disconnecting}
use go_steam.Connection.Network.{
  Fault, ended, closed, broken, NetError, net_eof, net_unexpected_eof, net_closed, net_other,
  Incoming, net_read, net_read_u32,
}

abbrev pub tcp_magic : ℕ
tcp_magic = 0x31305456

abbrev pub max_packet : ℕ
max_packet = 1024 * 1024

-- A nil context, one with no deadline, and one with a deadline, which the connection takes or not.
pub data Context : Type 0 where
  nil_ctx background : Context
  with_deadline : Bool → Context

pub data TcpError : Type 0 where
  nil_context empty_data connection_closing deadline_failed connection_closed : TcpError
  packet_too_large invalid_magic incomplete_packet : TcpError
  read_length_failed read_magic_failed read_body_failed : NetError → TcpError
  write_length_failed write_magic_failed write_data_failed : Fault → TcpError
  encrypt_failed decrypt_failed : CryptoError → TcpError

abbrev is_nil : Context → Bool
is_nil nil_ctx = true
is_nil background = false
is_nil (with_deadline taken) = false

-- `SetReadDeadline` or `SetWriteDeadline`, if there is a deadline.
set_deadline : Context → Result TcpError (Unit {0})
set_deadline (with_deadline false) = err deadline_failed
set_deadline _ = ok tt

-- Nothing more is to come since the connection is closing, or the packet's content and what follows.
pub data Packet : Type 0 where
  shutdown : Packet
  packet : Bytes → Incoming → Packet

-- What each of the three reads does with an error: nil if the connection was closed from this side,
-- "closed by remote peer" at the end of the stream, else the error of that read.
on_error : Bool → (NetError → TcpError) → NetError → Result TcpError Packet
on_error closing wrap net_eof = err connection_closed
on_error true wrap net_closed = ok shutdown
on_error closing wrap e = err (wrap e)

-- A read followed by what is done with its value.
and_then :
    {A : Type 0}
    → Bool
    → (NetError → TcpError)
    → Result NetError (A × Incoming)
    → (A → Incoming → Result TcpError Packet)
    → Result TcpError Packet
and_then closing wrap (err e) next = on_error closing wrap e
and_then closing wrap (ok (a, rest)) next = next a rest

module _ (prim : Primitives) where
  -- The body is decrypted if there is a session key.
  unfoldable pub open_body : Bytes → Bytes → Result TcpError Bytes
  open_body key body =
      if length key == 0
      then ok body
      else wrap_err decrypt_failed (symmetric_decrypt prim body key true)

  read_body : TcpConnection → Bool → ℕ → Incoming → Result TcpError Packet
  read_body c closing n incoming =
      and_then closing read_body_failed (net_read n incoming) (λ body rest.
        if ltb (length body) n
        then err incomplete_packet
        else do bs ← open_body c.session_key body; ok (packet bs rest))

  read_magic : TcpConnection → Bool → ℕ → Incoming → Result TcpError Packet
  read_magic c closing n incoming =
      and_then closing read_magic_failed (net_read_u32 incoming)
        (λ magic rest. if magic == tcp_magic then read_body c closing n rest else err invalid_magic)

  pub read : TcpConnection → Context → Bool → Incoming → Result TcpError Packet
  read c ctx closing incoming =
      if is_nil ctx then err nil_context else if is_disconnecting c.state then ok shutdown else do
        set_deadline ctx
        and_then closing read_length_failed (net_read_u32 incoming) (λ n rest.
            if ltb max_packet n then err packet_too_large else read_magic c closing n rest)

  -- The data as it is sent: encrypted if there is a session key.
  seal_data : (ℕ → Option Bytes) → Bytes → Bytes → Result TcpError Bytes
  seal_data rand key data_ =
      if length key == 0
      then ok data_
      else wrap_err encrypt_failed (symmetric_encrypt_with_hmac_iv prim rand data_ key)

-- One write of `Send` and the writes behind it: the fault ends the call, without an error if the
-- connection was closed from this side. What was written before stays written.
write_then :
    Bool
    → (Fault → TcpError)
    → Option Fault
    → Bytes
    → Result TcpError (Unit {0}) × Bytes
    → Result TcpError (Unit {0}) × Bytes
write_then closing wrap none piece (result, rest) = (result, piece ++ rest)
write_then true wrap (some closed) piece rest = (ok tt, [])
write_then closing wrap (some fault) piece rest = (err (wrap fault), [])

-- The three writes: length, magic and data; `faults` gives the fault of each.
pub write_frame : Bool → (ℕ → Option Fault) → Bytes → Result TcpError (Unit {0}) × Bytes
write_frame closing faults data_ =
    write_then closing write_length_failed (faults 0) (le_bytes 4 (length data_ % 2 ^ 32)) (
      write_then closing write_magic_failed (faults 1) (le_bytes 4 tcp_magic)
        (write_then closing write_data_failed (faults 2) data_ (ok tt, [])))

-- The result of `Send`, and the bytes that it wrote.
write_sealed :
    Context → Bool → (ℕ → Option Fault) → Result TcpError Bytes → Result TcpError (Unit {0}) × Bytes
write_sealed ctx closing faults (err e) = (err e, [])
write_sealed ctx closing faults (ok sent) = elim (set_deadline ctx) [
  | err e ↦ (err e, [])
  | ok _ ↦ write_frame closing faults sent
]

pub send :
    Primitives
    → (ℕ → Option Bytes)
    → TcpConnection
    → Context
    → Bool
    → (ℕ → Option Fault)
    → Bytes
    → Result TcpError (Unit {0}) × Bytes
send prim rand c ctx closing faults data_ =
    if is_nil ctx
    then (err nil_context, [])
    else if length data_ == 0
    then (err empty_data, [])
    else if is_disconnecting c.state
    then (err connection_closing, [])
    else write_sealed ctx closing faults (seal_data prim rand c.session_key data_)
