-- ===== src/Protocol/Message/Read.antt =====
-- protocol/read.go: the message number and the header, of three layouts, in front of a body.
use go_steam.Base.{
  ℕ, ◌-◌, ◌^◌, Bool, not, ◌||◌, Option, none, some, Bytes, length, take, drop, ltb, ◌==◌,
  if◌then◌else◌,
}
use go_steam.Base.Binary.{read_le}
use go_steam.Base.Results.{Result, ok, err, guard, or_err, wrap_err, ◌>>=◌, ◌>>◌}
use go_steam.Protocol.Message.{
  ProtoHeader, Header, new_header, proto_mask, emsg_channel_encrypt_request,
  emsg_channel_encrypt_result, Field, message_type, header_length, target_job, source_job,
  header_size, header_version, canary, header_steam_id, header_session_id, padding, MessageError,
  read_failed, header_data_missing, header_data_incomplete, header_invalid, header_too_short,
  unsupported_header_size,
}
use go_steam.Protocol.Message.Protobuf.{
  HeaderCodec, get_steam_id, get_client_session_id, get_job_id_source, get_job_id_target,
}
use Prim.Native.Nat.{bit_and}

-- `binary.Read` of an unsigned integer of `n` bytes.
abbrev pub read_int : Field → ℕ → Bytes → Result MessageError (ℕ × Bytes)
read_int field n r = wrap_err (read_failed field) (read_le n r)

-- `bytes.Reader.Read` into `n` bytes: at the end of the input it fails, even for no bytes at all.
abbrev pub reader_read : ℕ → Bytes → Option (Bytes × Bytes)
reader_read n r = if length r == 0 then none else some (take n r, drop n r)

-- The header that `readProtobufHeader` leaves.
abbrev pub with_proto : Header → ProtoHeader → Header
with_proto header p = record header {
  proto = some p;
  target_job_id = get_job_id_target p;
  source_job_id = get_job_id_source p;
  steam_id = get_steam_id p;
  session_id = get_client_session_id p;
}

unfoldable pub read_protobuf_header :
    HeaderCodec → Header → Bytes → Result MessageError (Header × Bytes)
read_protobuf_header codec header r = do
  (n, r1) ← read_int header_length 4 r
  (bs, r2) ← or_err (reader_read n r1) header_data_missing
  guard (length bs == n) header_data_incomplete
  p ← or_err (codec.unmarshal bs) header_invalid
  ok (with_proto header p, r2)

-- The two job ids, which the standard header and both extended headers begin with.
unfoldable pub read_job_ids : Header → Bytes → Result MessageError (Header × Bytes)
read_job_ids header r = do
  (target, r1) ← read_int target_job 8 r
  (source, r2) ← read_int source_job 8 r1
  ok (record header { target_job_id = target; source_job_id = source }, r2)

unfoldable pub read_standard_header : Header → Bytes → Result MessageError (Header × Bytes)
read_standard_header header r = do
  guard (not (ltb (length r) 16)) header_too_short
  read_job_ids header r

-- The header of size 20: job ids, canary and one byte of padding.
unfoldable pub read_extended_20 : Header → Bytes → Result MessageError (Header × Bytes)
read_extended_20 header r = do
  (h, r1) ← read_job_ids header r
  (_, r2) ← read_int canary 1 r1
  (_, r3) ← read_int padding 1 r2
  ok (h, r3)

-- The header of size 36: job ids, canary, SteamID, session id and three bytes of padding.
unfoldable pub read_extended_36 : Header → Bytes → Result MessageError (Header × Bytes)
read_extended_36 header r = do
  (h, r1) ← read_job_ids header r
  (_, r2) ← read_int canary 1 r1
  (id, r3) ← read_int header_steam_id 8 r2
  (session, r4) ← read_int header_session_id 4 r3
  (_, r5) ← read_int padding 3 r4
  ok (record h { steam_id = id; session_id = session }, r5)

-- The switch on the header's size.
unfoldable pub read_extended_of_size : ℕ → Header → Bytes → Result MessageError (Header × Bytes)
read_extended_of_size size header r =
    if size == 0
    then ok (header, r)
    else if size == 20
    then read_extended_20 header r
    else if size == 36
    then read_extended_36 header r
    else err (unsupported_header_size size)

unfoldable pub read_extended_header : Header → Bytes → Result MessageError (Header × Bytes)
read_extended_header header r = do
  (size, r1) ← read_int header_size 1 r
  (_, r2) ← read_int header_version 2 r1
  read_extended_of_size size header r2

unfoldable pub read_header :
    HeaderCodec → Header → Bytes → Bool → Result MessageError (Header × Bytes)
read_header codec header r is_protobuf =
    if is_protobuf
    then read_protobuf_header codec header r
    else if header.emsg == emsg_channel_encrypt_request
        || header.emsg == emsg_channel_encrypt_result
    then read_standard_header header r
    else read_extended_header header r

-- `readMessage` up to the call of `handleMessage`: the header, and the body that is left.
unfoldable pub read_front : HeaderCodec → Bytes → Result MessageError (Header × Bytes)
read_front codec r = do
  (raw, r1) ← read_int message_type 4 r
  read_header codec (new_header (bit_and raw (2 ^ 32 - 1 - proto_mask))) r1
      (not (bit_and raw proto_mask == 0))
