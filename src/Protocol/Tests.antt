-- ===== src/Protocol/Tests.antt =====
-- The theorems on the protocol at concrete messages, over a connection that keeps what is sent and a
-- protobuf of pairs of numbers.
use go_steam.Base.{
  ℕ, zero, suc, ◌+◌, ◌≡◌, ◌≢◌, refl, ap, sym, inl, true, Option, none, some, [], ◌∷◌, ◌++◌, List,
  Bytes, length, replicate, arith, ◌==◌, if◌then◌else◌,
}
use go_steam.Base.Results.{ok, err}
use go_steam.Base.Binary.{le_bytes}
use go_steam.Protocol.Message.{ProtoHeader, Header, new_header, emsg_channel_encrypt_result}
use go_steam.Protocol.Message.Protobuf.{HeaderCodec}
use go_steam.Protocol.Message.Read.{read_front, with_proto}
use go_steam.Protocol.Message.Write.{front, fill_proto}
use go_steam.Protocol.Message.RoundTrip.{read_front-front}
use go_steam.Protocol.Message.Layouts.{
  Layout, extended_36, layout_bytes, layout_header, read_front-layout_bytes,
}
use go_steam.Protocol.State.{connected, Connection, Protocol, encrypt_failed}
use go_steam.Protocol.Handlers.{Outside}
use go_steam.Protocol.Multi.{sub_messages, handle_multi}
use go_steam.Protocol.Multi.Split.{
  length-packed, pack, for_each, handle_multi-pack, sub_messages_rounds,
}
use go_steam.Protocol.Dispatch.{read_message}
use go_steam.Protocol.Dispatch.Laws.{received, handshake, result_bytes, read_message-result_bytes}

pub tag : Option ℕ → ℕ
tag none = 0
tag (some v) = 1

pub value : Option ℕ → ℕ
value none = 0
value (some v) = v

pub untag : ℕ → ℕ → Option ℕ
untag zero v = none
untag (suc n) v = some v

untag-tag : (o : Option ℕ) → untag (tag o) (value o) ≡ o
unfolding untag tag value
untag-tag none = refl
untag-tag (some v) = refl

pub marshal : ProtoHeader → Bytes
marshal p =
    tag p.steam_id
    ∷ value p.steam_id
    ∷ tag p.client_session_id
    ∷ value p.client_session_id
    ∷ tag p.job_id_source
    ∷ value p.job_id_source
    ∷ tag p.job_id_target
    ∷ value p.job_id_target
    ∷ p.others

pub unmarshal : Bytes → Option ProtoHeader
unmarshal (a ∷ a' ∷ b ∷ b' ∷ c ∷ c' ∷ d ∷ d' ∷ others) = some (record {
  steam_id = untag a a';
  client_session_id = untag b b';
  job_id_source = untag c c';
  job_id_target = untag d d';
  others = others;
})
unmarshal _ = none

unmarshal-marshal : (p : ProtoHeader) → unmarshal (marshal p) ≡ some p
unfolding unmarshal marshal
unmarshal-marshal p = rw (
  untag-tag p.steam_id,
  untag-tag p.client_session_id,
  untag-tag p.job_id_source,
  untag-tag p.job_id_target,
)

pub unmarshal-some_marshal :
    (p : ProtoHeader) (b : Bytes) → some (marshal p) ≡ some b → unmarshal b ≡ some p
unmarshal-some_marshal p b h = let same : marshal p ≡ b = cc in rw (sym same) (unmarshal-marshal p)

abbrev pub test_codec : HeaderCodec
test_codec = record {
  marshal = λ p. some (marshal p);
  unmarshal = unmarshal;
  unmarshal-marshal = unmarshal-some_marshal;
}

-- The packets that were sent, and the session key.
abbrev Log : Type 0
Log = List Bytes × Bytes

abbrev test_link : Connection Log
test_link = record {
  close = λ c. c;
  set_session_key = λ c key. (c.0, key);
  send = λ c bs. (ok tt, (bs ∷ c.0, c.1));
  read = λ c. (ok none, c);
}

abbrev test_outside : Outside Log
test_outside = record {
  link = test_link;
  codec = test_codec;
  ready = λ i. true;
  rand = λ n. some (replicate n 5);
  encrypt_oaep = λ s. some (1 ∷ s);
  crc32 = length;
  gunzip = λ s. some s;
  unmarshal_logon = λ s. none;
  unmarshal_multi = λ s. some (record { size_unzipped = 0; message_body = s });
  unmarshal_announcements = λ s. none;
  unmarshal_notifications = λ s. none;
  announcements_request = some [];
  heart_beat = some [];
}

abbrev test_protocol : Protocol Log
test_protocol = record {
  connection = ([], []);
  session_key = 7 ∷ [];
  heartbeat = none;
  steam_id = 0;
  session_id = 0;
  events = [];
  offers = 0;
}

abbrev test_proto : ProtoHeader
test_proto = record {
  steam_id = none;
  client_session_id = some 3;
  job_id_source = some 4;
  job_id_target = none;
  others = [];
}

abbrev test_header : Header
test_header = record (new_header 5514) { proto = some test_proto }

read_front-front_example :
    (wire : Bytes) × (front test_codec test_header ≡ some wire)
    × (read_front test_codec (wire ++ 1 ∷ [])
        ≡ ok (with_proto (new_header 5514) (fill_proto 5514 test_proto), 1 ∷ []))
unfolding marshal fill_proto
read_front-front_example =
    read_front-front test_codec test_header test_proto (marshal (fill_proto 5514 test_proto))
      (1 ∷ []) refl (omega arith) (omega arith) refl (omega arith) (omega arith)

abbrev test_layout : Layout
test_layout = extended_36 1 2 239 3 4 0

read_front-layout_bytes_example :
    read_front test_codec (le_bytes 4 5514 ++ (layout_bytes 2 test_layout ++ 1 ∷ []))
    ≡ ok (layout_header 5514 test_layout, 1 ∷ [])
read_front-layout_bytes_example =
    read_front-layout_bytes test_codec 5514 2 test_layout (1 ∷ []) (omega arith) (omega arith)
      (omega arith, omega arith, omega arith, omega arith, omega arith, omega arith) refl

abbrev test_nonce : Bytes
test_nonce = replicate 16 9

abbrev received_result : Protocol Log
received_result =
    received test_outside (handshake test_outside emsg_channel_encrypt_result 1 2) test_protocol

read_message-result_bytes_example :
    read_message test_outside 1 (result_bytes test_outside 1 2 1) test_protocol ≡ (
      if 1 == 1
      then (
        ok tt,
        record received_result {
          connection =
              test_link.set_session_key received_result.connection received_result.session_key;
          session_key = [];
          events = received_result.events ++ connected ∷ [];
        },
      )
      else (err (encrypt_failed 1), received_result))
read_message-result_bytes_example =
    read_message-result_bytes test_outside 0 1 2 1 test_protocol (omega arith) (omega arith)
      (omega arith)

abbrev test_messages : List Bytes
test_messages = (1 ∷ 2 ∷ 3 ∷ 4 ∷ []) ∷ (5 ∷ 6 ∷ 7 ∷ 8 ∷ 9 ∷ []) ∷ []

length-pack : length (pack test_messages) ≡ 17
length-pack = omega (
  arith,
  length-packed (1 ∷ 2 ∷ 3 ∷ 4 ∷ []) (pack ((5 ∷ 6 ∷ 7 ∷ 8 ∷ 9 ∷ []) ∷ [])),
  length-packed (5 ∷ 6 ∷ 7 ∷ 8 ∷ 9 ∷ []) [],
)

pack_full : pack test_messages ≢ []
pack_full h =
    let none_left : length (pack test_messages) ≡ 0 = ap length h in omega (arith, length-pack)

handle_multi-pack_example :
    handle_multi (read_message test_outside 1) test_outside (pack test_messages) test_protocol
    ≡ for_each (read_message test_outside 1) test_messages test_protocol
handle_multi-pack_example =
    handle_multi-pack (read_message test_outside 1) test_outside (pack test_messages)
      (record { size_unzipped = 0; message_body = pack test_messages }) test_messages test_protocol
      refl (inl (refl, refl)) pack_full (λ h. cc) (omega arith, (omega arith, tt))
      (omega (arith, length-pack))

sub_messages_rounds_example :
    sub_messages
      (read_message test_outside 1)
      (5 + length (pack test_messages))
      (pack test_messages)
      test_protocol
    ≡ sub_messages
        (read_message test_outside 1)
        (length (pack test_messages))
        (pack test_messages)
        test_protocol
sub_messages_rounds_example =
    sub_messages_rounds (read_message test_outside 1) 5 (pack test_messages) test_protocol
