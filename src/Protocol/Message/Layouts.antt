-- ===== src/Protocol/Message/Layouts.antt =====
-- The headers that a message can come with, written out byte by byte, against `readHeader`
-- (protocol/read.go).
use go_steam.Base.{
  ℕ, ◌^◌, ◌<◌, Bool, true, false, ◌||◌, ◌++◌, ◌≡◌, ◌∙◌, append_assoc, Bytes, length, length-append,
  ltb, ◌==◌, arith,
}
use go_steam.Base.Binary.{le_bytes, length-le_bytes}
use go_steam.Base.Results.{ok}
use go_steam.Protocol.Message.{
  Header, new_header, emsg_channel_encrypt_request, emsg_channel_encrypt_result, header_size,
  header_version, canary, header_steam_id, header_session_id, padding,
}
use go_steam.Protocol.Message.Protobuf.{HeaderCodec}
use go_steam.Protocol.Message.Read.{
  read_standard_header, read_extended_20, read_extended_36, read_extended_of_size,
  read_extended_header, read_header, read_front,
}
use go_steam.Protocol.Message.RoundTrip.{
  read_int-le_bytes, number_fits, read_job_ids-le_bytes, read_front_plain,
}

-- A header without the protobuf flag.
pub data Layout : Type 0 where
  standard : (target source : ℕ) → Layout
  extended_0 : Layout
  extended_20 : (target source canary_ pad : ℕ) → Layout
  extended_36 : (target source canary_ id session pad : ℕ) → Layout

-- Its bytes, with the version of the extended ones.
abbrev pub layout_bytes : ℕ → Layout → Bytes
layout_bytes version (standard target source) = le_bytes 8 target ++ le_bytes 8 source
layout_bytes version extended_0 = le_bytes 1 0 ++ le_bytes 2 version
layout_bytes version (extended_20 target source canary_ pad) =
    le_bytes 1 20
    ++ (le_bytes 2 version
        ++ (le_bytes 8 target ++ (le_bytes 8 source ++ (le_bytes 1 canary_ ++ le_bytes 1 pad))))
layout_bytes version (extended_36 target source canary_ id session pad) =
    le_bytes 1 36
    ++ (le_bytes 2 version
        ++ (le_bytes 8 target
            ++ (le_bytes 8 source
                ++ (le_bytes 1 canary_
                    ++ (le_bytes 8 id ++ (le_bytes 4 session ++ le_bytes 3 pad))))))

-- What it says, in a header for the message number.
abbrev pub layout_header : ℕ → Layout → Header
layout_header e (standard target source) = record (new_header e) {
  target_job_id = target;
  source_job_id = source;
}
layout_header e extended_0 = new_header e
layout_header e (extended_20 target source canary_ pad) = record (new_header e) {
  target_job_id = target;
  source_job_id = source;
}
layout_header e (extended_36 target source canary_ id session pad) = record (new_header e) {
  target_job_id = target;
  source_job_id = source;
  steam_id = id;
  session_id = session;
}

-- Its numbers fit their fields.
abbrev pub FitsLayout : Layout → Type 0
FitsLayout (standard target source) = (target < 2 ^ 64) × (source < 2 ^ 64)
FitsLayout extended_0 = Unit
FitsLayout (extended_20 target source canary_ pad) =
    (target < 2 ^ 64) × (source < 2 ^ 64) × (canary_ < 2 ^ 8) × (pad < 2 ^ 8)
FitsLayout (extended_36 target source canary_ id session pad) =
    (target < 2 ^ 64)
    × (source < 2 ^ 64)
    × (canary_ < 2 ^ 8)
    × (id < 2 ^ 64)
    × (session < 2 ^ 32)
    × (pad < 2 ^ 24)

-- The messages with the standard header are the encryption request and its result.
abbrev pub has_standard : ℕ → Bool
has_standard e = e == emsg_channel_encrypt_request || e == emsg_channel_encrypt_result

abbrev pub is_standard : Layout → Bool
is_standard (standard target source) = true
is_standard _ = false

-- Sixteen bytes are behind the start of a standard header.
standard_long :
    (target source : ℕ) (rest : Bytes)
    → ltb (length (le_bytes 8 target ++ (le_bytes 8 source ++ rest))) 16 ≡ false
standard_long target source rest =
    let front = length-append (le_bytes 8 target) (le_bytes 8 source ++ rest) in
    let back = length-append (le_bytes 8 source) rest in
    ground (arith, front, back, length-le_bytes 8 target, length-le_bytes 8 source)

read_extended_header-append :
    (header : Header) (size version : ℕ) (rest : Bytes)
    → size < 2 ^ 8
    → version < 2 ^ 16
    → read_extended_header header (le_bytes 1 size ++ (le_bytes 2 version ++ rest))
      ≡ read_extended_of_size size header rest
unfolding read_extended_header
read_extended_header-append header size version rest hs hv = rw (
  read_int-le_bytes header_size 1 size (le_bytes 2 version ++ rest) (omega arith),
  read_int-le_bytes header_version 2 version rest (omega arith),
)

read_extended_20-append :
    (header : Header) (target source canary_ pad : ℕ) (rest : Bytes)
    → FitsLayout (extended_20 target source canary_ pad)
    → read_extended_20 header (
        le_bytes 8 target
        ++ (le_bytes 8 source ++ (le_bytes 1 canary_ ++ (le_bytes 1 pad ++ rest))))
      ≡ ok (record header { target_job_id = target; source_job_id = source }, rest)
unfolding read_extended_20
read_extended_20-append header target source canary_ pad rest (ht, hs, hc, hp) = rw (
  read_job_ids-le_bytes header target source (le_bytes 1 canary_ ++ (le_bytes 1 pad ++ rest)) ht hs,
  read_int-le_bytes canary 1 canary_ (le_bytes 1 pad ++ rest) (omega arith),
  read_int-le_bytes padding 1 pad rest (omega arith),
)

read_extended_36-append :
    (header : Header) (target source canary_ id session pad : ℕ) (rest : Bytes)
    → FitsLayout (extended_36 target source canary_ id session pad)
    → read_extended_36 header (
        le_bytes 8 target
        ++ (le_bytes 8 source
            ++ (le_bytes 1 canary_
                ++ (le_bytes 8 id ++ (le_bytes 4 session ++ (le_bytes 3 pad ++ rest))))))
      ≡ ok (
        record header {
          target_job_id = target;
          source_job_id = source;
          steam_id = id;
          session_id = session;
        },
        rest,
      )
unfolding read_extended_36
read_extended_36-append header target source canary_ id session pad rest (ht, hs, hc, hi, hn, hp) =
    rw (
      read_job_ids-le_bytes header target source
          (le_bytes 1 canary_
            ++ (le_bytes 8 id ++ (le_bytes 4 session ++ (le_bytes 3 pad ++ rest))))
          ht hs,
      read_int-le_bytes canary 1 canary_
          (le_bytes 8 id ++ (le_bytes 4 session ++ (le_bytes 3 pad ++ rest))) (omega arith),
      read_int-le_bytes header_steam_id 8 id (le_bytes 4 session ++ (le_bytes 3 pad ++ rest))
          (number_fits id hi),
      read_int-le_bytes header_session_id 4 session (le_bytes 3 pad ++ rest) (omega arith),
      read_int-le_bytes padding 3 pad rest (omega arith),
    )

read_layout :
    (codec : HeaderCodec) (e version : ℕ) (layout : Layout) (body : Bytes)
    → version < 2 ^ 16
    → FitsLayout layout
    → has_standard e ≡ is_standard layout
    → read_header codec (new_header e) (layout_bytes version layout ++ body) false
      ≡ ok (layout_header e layout, body)
unfolding read_header read_standard_header read_extended_of_size
read_layout codec e version (standard target source) body hv (ht, hs) kind = rw (
  kind,
  append_assoc (le_bytes 8 target) (le_bytes 8 source) body,
  standard_long target source body,
  read_job_ids-le_bytes (new_header e) target source body ht hs,
)
read_layout codec e version extended_0 body hv fits kind = rw (
  kind,
  append_assoc (le_bytes 1 0) (le_bytes 2 version) body,
  read_extended_header-append (new_header e) 0 version body (omega arith) hv,
)
read_layout codec e version (extended_20 target source canary_ pad) body hv fits kind = rw kind (
    simp append_assoc (
      read_extended_header-append (new_header e) 20 version _ (omega arith) hv
      ∙ read_extended_20-append (new_header e) target source canary_ pad body fits))
read_layout codec e version (extended_36 target source canary_ id session pad) body hv fits kind =
    rw kind (
      simp append_assoc (
        read_extended_header-append (new_header e) 36 version _ (omega arith) hv
        ∙ read_extended_36-append (new_header e) target source canary_ id session pad body fits))

-- A message without the protobuf flag is read with the numbers of its header, and the body behind
-- it: the standard header for the encryption request and its result, an extended header of size 0,
-- 20 or 36 for the others.
pub read_front-layout_bytes :
    (codec : HeaderCodec) (e version : ℕ) (layout : Layout) (body : Bytes)
    → e < 2 ^ 31
    → version < 2 ^ 16
    → FitsLayout layout
    → has_standard e ≡ is_standard layout
    → read_front codec (le_bytes 4 e ++ (layout_bytes version layout ++ body))
      ≡ ok (layout_header e layout, body)
read_front-layout_bytes codec e version layout body small hv fits kind =
    read_front_plain codec e (layout_bytes version layout ++ body) small
    ∙ read_layout codec e version layout body hv fits kind
