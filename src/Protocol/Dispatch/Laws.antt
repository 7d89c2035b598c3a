-- ===== src/Protocol/Dispatch/Laws.antt =====
-- `readMessage` on the messages of the encryption handshake, on those that have no handler, and on
-- messages that are packed into each other (protocol/read.go, protocol/handlers.go).
use go_steam.Base.{
  ℕ, suc, ◌%◌, ◌^◌, ◌<◌, ◌⊎◌, inl, inr, some, [], ◌∷◌, ◌++◌, ◌≡◌, refl, ap, ◌∙◌, sym, append-nil,
  take-append, Bytes, length, ◌==◌, if◌then◌else◌, arith, Bool-cases, take,
}
use go_steam.Base.Binary.{le_bytes, read_le, read_le-le_bytes}
use go_steam.Base.Results.{ok, err}
use go_steam.Crypto.SessionKey.{generate_session_key}
use go_steam.Protocol.Message.{
  Header, emsg_channel_encrypt_request, emsg_channel_encrypt_response, emsg_channel_encrypt_result,
}
use go_steam.Protocol.Message.Write.{front}
use go_steam.Protocol.Message.Layouts.{
  layout_bytes, standard, read_front-layout_bytes, layout_header,
}
use go_steam.Protocol.State.{message_received, connected, Protocol, encrypt_failed, and_then, offer}
use go_steam.Protocol.Handlers.{
  Outside, handle_channel_encrypt_request, handle_channel_encrypt_result, send_packet, write,
  respond, nonce_of,
}
use go_steam.Protocol.Dispatch.{dispatch, handle_message, read_message}

nonce_whole : (nonce : Bytes) → length nonce ≡ 16 → nonce_of (take 16 nonce) ≡ nonce
nonce_whole nonce h =
    let whole : take 16 nonce ≡ nonce =
      ap (take 16) (sym (append-nil nonce)) ∙ take-append 16 nonce [] h in
    rw (whole, h) (append-nil nonce)

module _ {C : Type 0} (out : Outside C) where
  -- The state behind the debug event of a message.
  abbrev pub received : Header → Protocol C → Protocol C
  received header h = (offer out.ready (message_received header.emsg header) h).1

  -- The standard header of the handshake's messages.
  abbrev pub handshake : ℕ → ℕ → ℕ → Header
  handshake e target source = layout_header e (standard target source)

  read_message-standard :
      (depth e target source : ℕ) (body : Bytes) (h : Protocol C)
      → (e ≡ emsg_channel_encrypt_request) ⊎ (e ≡ emsg_channel_encrypt_result)
      → target < 2 ^ 64
      → source < 2 ^ 64
      → read_message out
          (suc depth)
          (le_bytes 4 e ++ (layout_bytes 0 (standard target source) ++ body))
          h
        ≡ dispatch out
            (read_message out depth)
            (handshake e target source)
            body
            (received (handshake e target source) h)
  unfolding read_message handle_message and_then
  read_message-standard depth e target source body h kind ht hs = rw (
      read_front-layout_bytes out.codec e 0 (standard target source) body (ground arith)
        (omega arith) (ht, hs) (ground arith))

  -- The bytes of an encryption request and of an encryption result.
  abbrev pub request_bytes : ℕ → ℕ → Bytes → Bytes
  request_bytes target source nonce =
      le_bytes 4 emsg_channel_encrypt_request
      ++ (layout_bytes 0 (standard target source) ++ (le_bytes 4 1 ++ (le_bytes 4 1 ++ nonce)))

  abbrev pub result_bytes : ℕ → ℕ → ℕ → Bytes
  result_bytes target source eresult =
      le_bytes 4 emsg_channel_encrypt_result
      ++ (layout_bytes 0 (standard target source) ++ le_bytes 4 eresult)

  -- The response to a request with the session key encrypted.
  abbrev pub response_bytes : ℕ → ℕ → Bytes → Bytes → Bytes
  response_bytes target source encrypted nonce =
      (le_bytes 4 emsg_channel_encrypt_response ++ (le_bytes 8 target ++ le_bytes 8 source))
      ++ (le_bytes 4 1
          ++ (le_bytes 4 (length encrypted % 2 ^ 32)
              ++ (encrypted ++ (le_bytes 4 (out.crc32 encrypted) ++ nonce))))

  request_handled :
      (header : Header) (nonce plain encrypted : Bytes) (h : Protocol C)
      → length nonce ≡ 16
      → out.rand 32 ≡ some plain
      → out.encrypt_oaep plain ≡ some encrypted
      → handle_channel_encrypt_request out header (le_bytes 4 1 ++ (le_bytes 4 1 ++ nonce)) h
        ≡ send_packet out
            (response_bytes header.target_job_id header.source_job_id encrypted nonce)
            (record h { session_key = plain })
  unfolding handle_channel_encrypt_request respond write front generate_session_key and_then
  request_handled header nonce plain encrypted h h16 hr he = rw (
    read_le-le_bytes 4 1 (le_bytes 4 1 ++ nonce) (omega arith),
    read_le-le_bytes 4 1 nonce (omega arith),
    h16,
    nonce_whole nonce h16,
    hr,
    he,
  )

  -- A request of the protocol and universe 1 with a nonce of 16 bytes makes a session key, keeps it
  -- aside, and answers with its job ids, the encrypted key, its checksum and the nonce, if the random
  -- source and RSA do not fail.
  pub read_message-request_bytes :
      (depth target source : ℕ) (nonce plain encrypted : Bytes) (h : Protocol C)
      → target < 2 ^ 64
      → source < 2 ^ 64
      → length nonce ≡ 16
      → out.rand 32 ≡ some plain
      → out.encrypt_oaep plain ≡ some encrypted
      → read_message out (suc depth) (request_bytes target source nonce) h
        ≡ send_packet out
            (response_bytes target source encrypted nonce)
            (record (received (handshake emsg_channel_encrypt_request target source) h) {
              session_key = plain;
            })
  unfolding dispatch
  read_message-request_bytes depth target source nonce plain encrypted h ht hs h16 hr he =
      let e = emsg_channel_encrypt_request in
      read_message-standard depth e target source (le_bytes 4 1 ++ (le_bytes 4 1 ++ nonce)) h
        (inl refl) ht hs
      ∙ request_handled (handshake e target source) nonce plain encrypted
          (received (handshake e target source) h) h16 hr he

  -- The result 1 gives the key that was kept aside to the connection, forgets it, and reports the
  -- connection; any other result is an error that leaves the connection and the key as they were.
  pub read_message-result_bytes :
      (depth target source eresult : ℕ) (h : Protocol C)
      → target < 2 ^ 64
      → source < 2 ^ 64
      → eresult < 2 ^ 32
      → let h' = received (handshake emsg_channel_encrypt_result target source) h in
        read_message out (suc depth) (result_bytes target source eresult) h ≡ (
          if eresult == 1
          then (
            ok tt,
            record h' {
              connection = out.link.set_session_key h'.connection h'.session_key;
              session_key = [];
              events = h'.events ++ connected ∷ [];
            },
          )
          else (err (encrypt_failed eresult), h'))
  unfolding dispatch handle_channel_encrypt_result and_then
  read_message-result_bytes depth target source eresult h ht hs he =
      let body : read_le 4 (le_bytes 4 eresult) ≡ ok (eresult, []) =
        ap (read_le 4) (sym (append-nil (le_bytes 4 eresult)))
        ∙ read_le-le_bytes 4 eresult [] (omega arith) in
      read_message-standard depth emsg_channel_encrypt_result target source (le_bytes 4 eresult) h
        (inr refl) ht hs
      ∙ rw body (elim (Bool-cases (eresult == 1)) [ inl one ↦ rw one | inr other ↦ rw other ])
