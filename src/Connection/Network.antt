-- ===== src/Connection/Network.antt =====
-- What the connection takes from the package net: exact reads from the bytes that arrive before the
-- stream fails, and how it fails.
use go_steam.Base.{ℕ, Bytes}
use go_steam.Base.Binary.{ReadError, eof, unexpected_eof, read_full, le_value}
use go_steam.Base.Results.{Result, ok, wrap_err, ◌>>=◌}

-- The peer ended the stream, the connection was closed on this side, or something else went wrong.
pub data Fault : Type 0 where
  ended closed broken : Fault

-- The error of a read: `io.EOF`, `io.ErrUnexpectedEOF`, `net.ErrClosed`, or another.
pub data NetError : Type 0 where
  net_eof net_unexpected_eof net_closed net_other : NetError

-- `io.ReadFull` turns an EOF behind some bytes into `io.ErrUnexpectedEOF`, and no other error.
unfoldable pub net_error : Fault → ReadError → NetError
net_error ended eof = net_eof
net_error ended unexpected_eof = net_unexpected_eof
net_error closed e = net_closed
net_error broken e = net_other

-- The bytes that arrive, and the fault of a read that wants more.
pub record Incoming : Type 0 where
  pub bytes : Bytes
  pub fault : Fault

-- `io.ReadFull(connection, buf)` with `len(buf) == n`.
unfoldable pub net_read : ℕ → Incoming → Result NetError (Bytes × Incoming)
net_read n incoming = do
  (bs, rest) ← wrap_err (net_error incoming.fault) (read_full n incoming.bytes)
  ok (bs, record incoming { bytes = rest })

-- `binary.Read(connection, binary.LittleEndian, &v)` for a uint32 `v`.
unfoldable pub net_read_u32 : Incoming → Result NetError (ℕ × Incoming)
net_read_u32 incoming = do (bs, rest) ← net_read 4 incoming; ok (le_value bs, rest)
