-- ===== src/Protocol/Message/RoundTrip.antt =====
-- What `Write` sends and what `readMessage` makes of it, and what it makes of the layouts that the
-- server uses (protocol/write.go, protocol/read.go).
use go_steam.Base.{
  ℕ, ◌+◌, ◌-◌, ◌*◌, ◌%◌, ◌^◌, ◌<◌, true, false, some, ◌++◌, ◌≡◌, ◌≢◌, refl, ap, ◌∙◌, sym,
  append_assoc, Bytes, length, length-append, take-append, drop-append, ◌==◌, arith,
}
use go_steam.Base.Bits.{
  bit_and_cut, bit_or_cut, bit_and-zero_right, bit_or-zero_right, bit_and_mask,
}
use go_steam.Base.Binary.{le_bytes, read_le-le_bytes}
use go_steam.Base.Results.{ok}
use go_steam.Protocol.Message.{
  ProtoHeader, Header, new_header, proto_mask, emsg_channel_encrypt_response, Field, header_length,
  target_job, source_job, message_type,
}
use go_steam.Protocol.Message.Protobuf.{HeaderCodec}
use go_steam.Protocol.Message.Read.{
  read_int, with_proto, read_protobuf_header, read_job_ids, read_header, read_front,
}
use go_steam.Protocol.Message.Write.{fill_proto, proto_front, front}
use Prim.Native.Nat.{bit_and, bit_or}

module _ (e : ℕ) (small : e < 2 ^ 31) where
  flag_set : bit_or e proto_mask ≡ e + 2 ^ 31
  flag_set =
      let cut : bit_or (0 * 2 ^ 31 + e) proto_mask ≡ 2 ^ 31 + bit_or e 0 =
        bit_or_cut 31 0 e 1 0 small (omega arith) in
      let same : 0 * 2 ^ 31 + e ≡ e = omega arith in
      ap (λ t. bit_or t proto_mask) (sym same) ∙ (cut ∙ omega (arith, bit_or-zero_right e))

  flag_read : bit_and (e + 2 ^ 31) proto_mask ≡ 2 ^ 31
  flag_read =
      let cut : bit_and (1 * 2 ^ 31 + e) proto_mask ≡ 2 ^ 31 + bit_and e 0 =
        bit_and_cut 31 1 e 1 0 small (omega arith) in
      let same : e + 2 ^ 31 ≡ 1 * 2 ^ 31 + e = omega arith in
      ap (λ t. bit_and t proto_mask) same ∙ (cut ∙ omega (arith, bit_and-zero_right e))

  flag_cleared : bit_and (e + 2 ^ 31) (2 ^ 32 - 1 - proto_mask) ≡ e
  flag_cleared = omega (arith, bit_and_mask 31 (e + 2 ^ 31))

  flag_unset : bit_and e proto_mask ≡ 0
  flag_unset =
      let cut : bit_and (0 * 2 ^ 31 + e) proto_mask ≡ 0 + bit_and e 0 =
        bit_and_cut 31 0 e 1 0 small (omega arith) in
      let same : 0 * 2 ^ 31 + e ≡ e = omega arith in
      ap (λ t. bit_and t proto_mask) (sym same) ∙ (cut ∙ omega (arith, bit_and-zero_right e))

  number_kept : bit_and e (2 ^ 32 - 1 - proto_mask) ≡ e
  number_kept = omega (arith, bit_and_mask 31 e)

pub read_int-le_bytes :
    (field : Field) (n v : ℕ) (rest : Bytes)
    → v < 256 ^ n
    → read_int field n (le_bytes n v ++ rest) ≡ ok (v, rest)
read_int-le_bytes field n v rest h = rw (read_le-le_bytes n v rest h)

pub number_fits : (v : ℕ) → v < 2 ^ 64 → v < 256 ^ 8
number_fits v h = omega arith

mod_small : (n : ℕ) → n < 2 ^ 32 → n % 2 ^ 32 ≡ n
mod_small n h = omega arith

==_refl : (n : ℕ) → (n == n) ≡ true
==_refl n = ground arith

-- The front of a message with the flag, and of one without.
module _ (codec : HeaderCodec) where
  read_front_proto :
      (e : ℕ) (rest : Bytes)
      → e < 2 ^ 31
      → read_front codec (le_bytes 4 (bit_or e proto_mask) ++ rest)
        ≡ read_protobuf_header codec (new_header e) rest
  unfolding read_front read_header
  read_front_proto e rest small = rw (
    flag_set e small,
    read_int-le_bytes message_type 4 (e + 2 ^ 31) rest (omega arith),
    flag_read e small,
    flag_cleared e small,
  )

  pub read_front_plain :
      (e : ℕ) (rest : Bytes)
      → e < 2 ^ 31
      → read_front codec (le_bytes 4 e ++ rest) ≡ read_header codec (new_header e) rest false
  unfolding read_front
  read_front_plain e rest small = rw (
    read_int-le_bytes message_type 4 e rest (omega arith),
    flag_unset e small,
    number_kept e small,
  )

pub read_job_ids-le_bytes :
    (header : Header) (target source : ℕ) (rest : Bytes)
    → target < 2 ^ 64
    → source < 2 ^ 64
    → read_job_ids header (le_bytes 8 target ++ (le_bytes 8 source ++ rest))
      ≡ ok (record header { target_job_id = target; source_job_id = source }, rest)
unfolding read_job_ids
read_job_ids-le_bytes header target source rest ht hs = rw (
  read_int-le_bytes target_job 8 target (le_bytes 8 source ++ rest) (number_fits target ht),
  read_int-le_bytes source_job 8 source rest (number_fits source hs),
)

-- A message that `Write` sends with a protobuf header, and that is not the encryption response, is
-- read with that header, filled in, its fields and the same body, if the marshalled header is
-- shorter than 4 GiB and there is a byte behind the header's length.
pub read_front-front :
    (codec : HeaderCodec) (h : Header) (p : ProtoHeader) (b body : Bytes)
    → h.proto ≡ some p
    → h.emsg < 2 ^ 31
    → h.emsg ≢ emsg_channel_encrypt_response
    → codec.marshal (fill_proto h.emsg p) ≡ some b
    → length b < 2 ^ 32
    → 0 < length b + length body
    → (wire : Bytes) × (front codec h ≡ some wire)
      × (read_front codec (wire ++ body)
          ≡ ok (with_proto (new_header h.emsg) (fill_proto h.emsg p), body))
unfolding front read_protobuf_header
read_front-front codec h p b body hp small other marshalled short some_left =
    let unmarshalled = codec.unmarshal-marshal (fill_proto h.emsg p) b marshalled in
    let not_response : (h.emsg == emsg_channel_encrypt_response) ≡ false = ground arith in
    let left : (length (b ++ body) == 0) ≡ false = ground (arith, length-append b body) in
    (
      proto_front h.emsg b,
      rw (not_response, hp, marshalled),
      rw (
        append_assoc (le_bytes 4 (bit_or h.emsg proto_mask)) (le_bytes 4 (length b % 2 ^ 32) ++ b)
            body,
        read_front_proto codec h.emsg ((le_bytes 4 (length b % 2 ^ 32) ++ b) ++ body) small,
        append_assoc (le_bytes 4 (length b % 2 ^ 32)) b body,
        read_int-le_bytes header_length 4 (length b % 2 ^ 32) (b ++ body) (omega arith),
        mod_small (length b) short,
        left,
        take-append (length b) b body refl,
        drop-append (length b) b body refl,
        ==_refl (length b),
        unmarshalled,
      ),
    )
