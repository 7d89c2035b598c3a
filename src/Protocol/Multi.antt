-- ===== src/Protocol/Multi.antt =====
-- `handleMulti` of protocol/handlers.go: one packet that holds several messages, maybe compressed.
-- What is done with each of them is an argument.
pub mod Split
pub mod Depth
pub mod Keeps
use go_steam.Base.{
  ℕ, zero, suc, ◌-◌, ◌%◌, ◌^◌, Bool, not, Option, none, some, [], ◌∷◌, Bytes, length, take, drop,
  ltb, ◌==◌, if◌then◌else◌,
}
use go_steam.Base.Binary.{ReadError, eof, unexpected_eof, read_le, read_full}
use go_steam.Base.Results.{Result, ok, err, guard, or_err, wrap_err}
use go_steam.Protocol.Message.{read_failed, sub_size, sub_data}
use go_steam.Protocol.State.{
  Protocol, ProtocolError, message_error, body_invalid, empty_multi, gzip_failed, size_mismatch,
  sub_message_size, sub_message_short, too_deep, M, ◌>>=◌, ◌>>◌, pure, fail, lift,
}
use go_steam.Protocol.Handlers.{MultiBody, Outside}

-- The switch on the size of a sub-message that was read: at the end of the input it stays 0.
check_size : Result ReadError (ℕ × Bytes) → Result ProtocolError (ℕ × Bytes)
check_size (err eof) = ok (0, [])
check_size (err unexpected_eof) = err (message_error (read_failed sub_size unexpected_eof))
check_size (ok (size, rest)) =
    if ltb size 4
    then err sub_message_size
    else if ltb (length rest % 2 ^ 32) size
    then err sub_message_short
    else ok (size, rest)

-- The bytes of the sub-message, behind its size.
read_sub_data : Result ProtocolError (ℕ × Bytes) → Result ProtocolError (Bytes × Bytes)
read_sub_data (err e) = err e
read_sub_data (ok (size, rest)) =
    wrap_err (λ e. message_error (read_failed sub_data e)) (read_full size rest)

-- A sub-message and what follows it.
sub_message : Bytes → Result ProtocolError (Bytes × Bytes)
sub_message r = read_sub_data (check_size (read_le 4 r))

-- What `gzip` made of the body, if it has the size.
check_unzipped : ℕ → Option Bytes → Result ProtocolError Bytes
check_unzipped size none = err gzip_failed
check_unzipped size (some bs) = if length bs % 2 ^ 32 == size then ok bs else err size_mismatch

-- The optional decompression.
unzipped : (Bytes → Option Bytes) → MultiBody → Result ProtocolError Bytes
unzipped gunzip multi =
    if multi.size_unzipped == 0
    then ok multi.message_body
    else check_unzipped multi.size_unzipped (gunzip multi.message_body)

module _ {C : Type 0} (next : Bytes → M C (Unit {0})) where
  -- The loop over the sub-messages; each takes eight bytes at least, so a round for each byte is
  -- enough.
  pub sub_messages : ℕ → Bytes → M C (Unit {0})
  sub_messages zero r = if length r == 0 then pure tt else fail too_deep
  sub_messages (suc n) r =
      if length r == 0
      then pure tt
      else do (bs, rest) ← lift (sub_message r); next bs; sub_messages n rest

  pub handle_multi : Outside C → Bytes → M C (Unit {0})
  handle_multi out body = do
    multi ← lift (or_err (out.unmarshal_multi body) body_invalid)
    lift (guard (not (length multi.message_body == 0)) empty_multi)
    data_ ← lift (unzipped out.gunzip multi)
    sub_messages (length data_) data_
