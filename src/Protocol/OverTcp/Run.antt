-- ===== src/Protocol/OverTcp/Run.antt =====
-- `Run` over a new TCP connection, from the bytes that arrive to those that are written.
use go_steam.Base.{
  ℕ, suc, ◌+◌, ◌≤◌, ◌<◌, ◌^◌, ◌≡◌, refl, ◌∙◌, false, Option, some, [], ◌∷◌, ◌++◌, List, Bytes,
  length, length-append, arith,
}
use go_steam.Base.Binary.{le_bytes, length-le_bytes}
use go_steam.Base.Results.{ok, err}
use go_steam.Crypto.Primitives.{Primitives}
use go_steam.Connection.State.{new_tcp_connection, connected_encrypted}
use go_steam.Connection.Network.{Fault, ended}
use go_steam.Connection.Tcp.{max_packet, open_body}
use go_steam.Connection.Tcp.Framing.{frame, arriving, read-frame, send-frame_plain, read-ended}
use go_steam.Protocol.State.{Event, connected, Protocol, read_failed_}
use go_steam.Protocol.Message.{
  emsg_channel_encrypt_request, emsg_channel_encrypt_response, emsg_channel_encrypt_result,
}
use go_steam.Protocol.Handlers.{Outside, send_packet}
use go_steam.Protocol.Dispatch.{read_message, run}
use go_steam.Protocol.Dispatch.Run.{run_packet, run_failed}
use go_steam.Protocol.Dispatch.Laws.{
  request_bytes, result_bytes, response_bytes, received, handshake, read_message-request_bytes,
  read_message-result_bytes,
}
use go_steam.Protocol.OverTcp.{Socket, tcp_link, given_key}

module _ (prim : Primitives) (rand : ℕ → Option Bytes) (out : Outside Socket)
    (same : out.link ≡ tcp_link prim rand) where
  -- A packet that arrives over a connection without a key is read as it is.
  read-arriving :
      (s : Socket) (body rest : Bytes) (fault : Fault)
      → s.tcp ≡ new_tcp_connection
      → s.incoming ≡ arriving (frame body ++ rest) fault
      → length body ≤ max_packet
      → out.link.read s ≡ (ok (some body), record s { incoming = arriving rest fault })
  unfolding tcp_link open_body
  read-arriving s body rest fault fresh comes fits =
      rw (same, fresh, comes, read-frame prim new_tcp_connection false body rest fault refl fits)
        refl

  -- What is sent over such a connection is written as one frame.
  written : Bytes → Protocol Socket → Protocol Socket
  written bs h = record h {
    connection = record (h.connection) { written = h.connection.written ++ frame bs };
  }

  send_packet-written :
      (bs : Bytes) (h : Protocol Socket)
      → h.connection.tcp ≡ new_tcp_connection
      → 0 < length bs
      → send_packet out bs h ≡ (ok tt, written bs h)
  unfolding send_packet tcp_link written
  send_packet-written bs h fresh full =
      rw (same, fresh, send-frame_plain prim rand new_tcp_connection false bs refl refl full) refl

  -- The peer ends the stream.
  read-finished :
      (s : Socket)
      → s.tcp.state ≡ connected_encrypted
      → s.incoming ≡ arriving [] ended
      → out.link.read s ≡ (err tt, s)
  unfolding tcp_link
  read-finished s state comes = rw (same, comes, read-ended prim s.tcp false (rw state refl)) refl

  length-field : (n v : ℕ) (bs : Bytes) → length (le_bytes n v ++ bs) ≡ n + length bs
  length-field n v bs = omega (arith, length-append (le_bytes n v) bs, length-le_bytes n v)

  response_full :
      (target source : ℕ) (encrypted nonce : Bytes)
      → 0 < length (response_bytes out target source encrypted nonce)
  response_full target source encrypted nonce =
      rw
        (
          length-append
              (le_bytes 4 emsg_channel_encrypt_response ++ (le_bytes 8 target ++ le_bytes 8 source))
              _,
          length-append (le_bytes 4 emsg_channel_encrypt_response)
              (le_bytes 8 target ++ le_bytes 8 source),
          length-le_bytes 4 emsg_channel_encrypt_response,
        )
        (omega arith)

  request_fits :
      (target source : ℕ) (nonce : Bytes)
      → length nonce ≡ 16
      → length (request_bytes out target source nonce) ≤ max_packet
  request_fits target source nonce h = omega (
    arith,
    h,
    length-field 4 emsg_channel_encrypt_request
        ((le_bytes 8 target ++ le_bytes 8 source) ++ (le_bytes 4 1 ++ (le_bytes 4 1 ++ nonce))),
    length-append (le_bytes 8 target ++ le_bytes 8 source)
        (le_bytes 4 1 ++ (le_bytes 4 1 ++ nonce)),
    length-field 8 target (le_bytes 8 source),
    length-le_bytes 8 source,
    length-field 4 1 (le_bytes 4 1 ++ nonce),
    length-field 4 1 nonce,
  )

  result_fits :
      (target source eresult : ℕ) → length (result_bytes out target source eresult) ≤ max_packet
  result_fits target source eresult = omega (
    arith,
    length-field 4 emsg_channel_encrypt_result
        ((le_bytes 8 target ++ le_bytes 8 source) ++ le_bytes 4 eresult),
    length-append (le_bytes 8 target ++ le_bytes 8 source) (le_bytes 4 eresult),
    length-field 8 target (le_bytes 8 source),
    length-le_bytes 8 source,
    length-le_bytes 4 eresult,
  )

  -- The states between the steps of the handshake: the request is taken, it is answered, the result
  -- is taken, and the key is in use.
  taking : Bytes → Protocol Socket → Protocol Socket
  taking rest h = record h { connection = record (h.connection) { incoming = arriving rest ended } }

  request_answered :
      (depth target source : ℕ) (nonce plain encrypted : Bytes) (h : Protocol Socket)
      → target < 2 ^ 64
      → source < 2 ^ 64
      → length nonce ≡ 16
      → out.rand 32 ≡ some plain
      → out.encrypt_oaep plain ≡ some encrypted
      → h.connection.tcp ≡ new_tcp_connection
      → read_message out (suc depth) (request_bytes out target source nonce) h ≡ (
        ok tt,
        written
            (response_bytes out target source encrypted nonce)
            (record (received out (handshake out emsg_channel_encrypt_request target source) h) {
              session_key = plain;
            }),
      )
  request_answered depth target source nonce plain encrypted h ht hs h16 hr he fresh =
      read_message-request_bytes out depth target source nonce plain encrypted h ht hs h16 hr he
      ∙ send_packet-written _ _ fresh (response_full target source encrypted nonce)

  result_taken :
      (depth target source : ℕ) (h : Protocol Socket)
      → target < 2 ^ 64
      → source < 2 ^ 64
      → h.connection.tcp ≡ new_tcp_connection
      → length h.session_key ≡ 32
      → (h' : Protocol Socket) × (read_message out (suc depth) (result_bytes out target source 1) h
          ≡ (ok tt, h'))
        × (h'.connection ≡ record (h.connection) {
          tcp = record { state = connected_encrypted; session_key = h.session_key };
        })
        × (h'.session_key ≡ [])
        × (h'.events
            ≡ (received out (handshake out emsg_channel_encrypt_result target source) h).events
              ++ connected ∷ [])
  unfolding tcp_link
  result_taken depth target source h ht hs fresh h32 = (
    _,
    read_message-result_bytes out depth target source 1 h ht hs (omega arith),
    rw (same, given_key h.connection.tcp h.session_key fresh h32) refl,
    refl,
    refl,
  )

  -- Over a new TCP connection on which an encryption request of the protocol 1 and the universe 1, the
  -- result 1 and then the end of the stream arrive, `Run` writes the response in one frame, leaves the
  -- connection encrypted under the session key of 32 bytes that was made for the request, forgets the
  -- key itself, reports the connection with the last event, and returns the error of the third read.
  pub run-handshake :
      (depth rounds target source : ℕ) (nonce plain encrypted : Bytes) (h : Protocol Socket)
      → target < 2 ^ 64
      → source < 2 ^ 64
      → length nonce ≡ 16
      → out.rand 32 ≡ some plain
      → length plain ≡ 32
      → out.encrypt_oaep plain ≡ some encrypted
      → h.connection.tcp ≡ new_tcp_connection
      → h.connection.incoming
        ≡ arriving
            (frame (request_bytes out target source nonce)
              ++ (frame (result_bytes out target source 1) ++ []))
            ended
      → (h' : Protocol Socket) × (earlier : List Event) × (run out
            (suc depth)
            (suc (suc (suc rounds)))
            h
          ≡ (err read_failed_, h'))
        × (h'.connection ≡ record {
          tcp = record { state = connected_encrypted; session_key = plain };
          written =
              h.connection.written ++ frame (response_bytes out target source encrypted nonce);
          incoming = arriving [] ended;
        })
        × (h'.session_key ≡ [])
        × (h'.events ≡ earlier ++ connected ∷ [])
  unfolding taking written
  run-handshake depth rounds target source nonce plain encrypted h ht hs h16 hr h32 he fresh comes =
      let request = request_bytes out target source nonce in
      let result = result_bytes out target source 1 in
      let h1 = taking (frame result ++ []) h in
      let h2 =
        written (response_bytes out target source encrypted nonce)
          (record (received out (handshake out emsg_channel_encrypt_request target source) h1) {
            session_key = plain;
          }) in
      let h3 = taking [] h2 in
      let (h4, handled, c, key, events) = result_taken depth target source h3 ht hs fresh h32 in
      let first =
        run_packet out (suc depth) (suc (suc rounds)) request h1.connection h h2
          (read-arriving h.connection request (frame result ++ []) ended fresh comes
            (request_fits target source nonce h16))
          (request_answered depth target source nonce plain encrypted h1 ht hs h16 hr he fresh) in
      let second =
        run_packet out (suc depth) (suc rounds) result h3.connection h2 h4
          (read-arriving h2.connection result [] ended fresh refl (result_fits target source 1))
          handled in
      let third =
        run_failed out (suc depth) rounds h4.connection h4
          (read-finished h4.connection (rw c refl) (rw c refl)) in
      (h4, _, first ∙ second ∙ third, c, key, events)
