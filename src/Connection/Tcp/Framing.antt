-- ===== src/Connection/Tcp/Framing.antt =====
-- What one side sends, the other side reads: packets of `Send` against `Read` (connection/tcp.go).
use go_steam.Base.{
  ℕ, ◌+◌, ◌%◌, ◌^◌, ◌≤◌, ◌<◌, Bool, false, Option, none, some, [], ◌++◌, ◌≡◌, refl, ap, ◌∙◌,
  append_assoc, append-nil, Bytes, length, ltb, lt→ltb, ◌==◌, arith, All, IsByte,
}
use go_steam.Base.Binary.{read_full, le_bytes, length-le_bytes, le_value-le_bytes, read_full-append}
use go_steam.Base.Results.{ok, err, ◌>>=◌}
use go_steam.Crypto.Primitives.{Primitives}
use go_steam.Crypto.Symmetric.RoundTrip.{symmetric_decrypt-symmetric_encrypt_with_hmac_iv}
use go_steam.Connection.State.{TcpConnection, is_disconnecting}
use go_steam.Connection.Network.{Fault, ended, Incoming, net_error, net_read, net_read_u32}
use go_steam.Connection.Tcp.{
  tcp_magic, max_packet, background, connection_closed, on_error, packet_too_large, packet,
  and_then, set_deadline, write_then, write_sealed, open_body, read_body, read_magic, read,
  seal_data, write_frame, send,
}

-- The packet that holds `body`.
abbrev pub frame : Bytes → Bytes
frame body = le_bytes 4 (length body % 2 ^ 32) ++ (le_bytes 4 tcp_magic ++ body)

abbrev pub arriving : Bytes → Fault → Incoming
arriving bs fault = record { bytes = bs; fault = fault }

net_read-append :
    (n : ℕ) (bs rest : Bytes) (fault : Fault)
    → length bs ≡ n
    → net_read n (arriving (bs ++ rest) fault) ≡ ok (bs, arriving rest fault)
unfolding net_read
net_read-append n bs rest fault h = rw (read_full-append n bs rest h)

net_read_u32-append :
    (v : ℕ) (rest : Bytes) (fault : Fault)
    → v < 2 ^ 32
    → net_read_u32 (arriving (le_bytes 4 v ++ rest) fault) ≡ ok (v, arriving rest fault)
unfolding net_read_u32
net_read_u32-append v rest fault h = rw (
  net_read-append 4 (le_bytes 4 v) rest fault (length-le_bytes 4 v),
  le_value-le_bytes 4 v (omega arith),
)

small : (n : ℕ) → n ≤ max_packet → n % 2 ^ 32 ≡ n
small n h = omega arith

ltb_irrefl : (n : ℕ) → ltb n n ≡ false
ltb_irrefl n = ground arith

le→ltb_false : {m n : ℕ} → m ≤ n → ltb n m ≡ false
le→ltb_false h = ground arith

mod_small : (n : ℕ) → n < 2 ^ 32 → n % 2 ^ 32 ≡ n
mod_small n h = omega arith

nonempty : (n : ℕ) → 0 < n → (n == 0) ≡ false
nonempty n h = ground arith

module _ (prim : Primitives) where
  read_body-append :
      (c : TcpConnection) (closing : Bool) (body rest : Bytes) (fault : Fault)
      → read_body prim c closing (length body) (arriving (body ++ rest) fault)
        ≡ (do bs ← open_body prim c.session_key body; ok (packet bs (arriving rest fault)))
  unfolding read_body and_then
  read_body-append c closing body rest fault =
      rw (net_read-append (length body) body rest fault refl, ltb_irrefl (length body))

  read_magic-append :
      (c : TcpConnection) (closing : Bool) (n : ℕ) (bs : Bytes) (fault : Fault)
      → read_magic prim c closing n (arriving (le_bytes 4 tcp_magic ++ bs) fault)
        ≡ read_body prim c closing n (arriving bs fault)
  unfolding read_magic and_then
  read_magic-append c closing n bs fault = rw (net_read_u32-append tcp_magic bs fault (omega arith))

  -- A packet of at most a mebibyte, whatever follows it: its body is opened and the rest is left.
  pub read-frame :
      (c : TcpConnection) (closing : Bool) (body rest : Bytes) (fault : Fault)
      → is_disconnecting c.state ≡ false
      → length body ≤ max_packet
      → read prim c background closing (arriving (frame body ++ rest) fault)
        ≡ (do bs ← open_body prim c.session_key body; ok (packet bs (arriving rest fault)))
  unfolding read and_then set_deadline
  read-frame c closing body rest fault open_ fits = rw (
    open_,
    append_assoc (le_bytes 4 (length body % 2 ^ 32)) (le_bytes 4 tcp_magic ++ body) rest,
    append_assoc (le_bytes 4 tcp_magic) body rest,
    net_read_u32-append (length body % 2 ^ 32) (le_bytes 4 tcp_magic ++ (body ++ rest)) fault
        (omega arith),
    small (length body) fits,
    le→ltb_false fits,
    read_magic-append c closing (length body) (body ++ rest) fault,
    read_body-append c closing body rest fault,
  )

  -- A packet that is longer is refused, whatever it holds.
  read-frame_large :
      (c : TcpConnection) (closing : Bool) (body rest : Bytes) (fault : Fault)
      → is_disconnecting c.state ≡ false
      → max_packet < length body
      → length body < 2 ^ 32
      → read prim c background closing (arriving (frame body ++ rest) fault) ≡ err packet_too_large
  unfolding read and_then set_deadline
  read-frame_large c closing body rest fault open_ large fits = rw (
    open_,
    append_assoc (le_bytes 4 (length body % 2 ^ 32)) (le_bytes 4 tcp_magic ++ body) rest,
    net_read_u32-append (length body % 2 ^ 32) ((le_bytes 4 tcp_magic ++ body) ++ rest) fault
        (omega arith),
    mod_small (length body) fits,
    lt→ltb max_packet (length body) large,
  )

  -- Without a fault, `send` writes the frame of what it sends.
  send-frame :
      (rand : ℕ → Option Bytes) (c : TcpConnection) (closing : Bool) (data_ sent : Bytes)
      → is_disconnecting c.state ≡ false
      → 0 < length data_
      → seal_data prim rand c.session_key data_ ≡ ok sent
      → send prim rand c background closing (λ i. none) data_ ≡ (ok tt, frame sent)
  unfolding send write_sealed set_deadline write_frame write_then
  send-frame rand c closing data_ sent open_ full sealed_ =
      rw (open_, nonempty (length data_) full, sealed_)
        (ap (λ w. (ok tt, le_bytes 4 (length sent % 2 ^ 32) ++ (le_bytes 4 tcp_magic ++ w)))
          (append-nil sent))

  pub send-frame_plain :
      (rand : ℕ → Option Bytes) (c : TcpConnection) (closing : Bool) (data_ : Bytes)
      → is_disconnecting c.state ≡ false
      → c.session_key ≡ []
      → 0 < length data_
      → send prim rand c background closing (λ i. none) data_ ≡ (ok tt, frame data_)
  unfolding seal_data
  send-frame_plain rand c closing data_ oc kc full =
      send-frame rand c closing data_ data_ oc full (rw kc)

  -- At the end of the stream, the peer has closed the connection.
  pub read-ended :
      (c : TcpConnection) (closing : Bool)
      → is_disconnecting c.state ≡ false
      → read prim c background closing (arriving [] ended) ≡ err connection_closed
  unfolding read and_then set_deadline on_error net_read_u32 net_read read_full net_error
  read-ended c closing oc = rw oc refl

  -- Without a session key on either side, data of 1 byte to a mebibyte is sent, and `read` on the
  -- other side gives it back and leaves what follows it, if neither side is disconnecting.
  pub read-send_plain :
      (rand : ℕ → Option Bytes) (c d : TcpConnection) (closing : Bool) (data_ rest : Bytes)
      (fault : Fault)
      → is_disconnecting c.state ≡ false
      → is_disconnecting d.state ≡ false
      → c.session_key ≡ []
      → d.session_key ≡ []
      → 0 < length data_
      → length data_ ≤ max_packet
      → (wire : Bytes) × (send prim rand c background closing (λ i. none) data_ ≡ (ok tt, wire))
        × (read prim d background closing (arriving (wire ++ rest) fault)
            ≡ ok (packet data_ (arriving rest fault)))
  unfolding open_body
  read-send_plain rand c d closing data_ rest fault oc od kc kd full fits = (
    frame data_,
    send-frame_plain rand c closing data_ oc kc full,
    read-frame d closing data_ rest fault od fits ∙ rw kd,
  )

  -- With the same session key of 32 bytes on both sides, and three random bytes at hand, data of 1
  -- byte to 32 bytes below a mebibyte is sent, and `read` on the other side gives it back and leaves
  -- what follows it, if neither side is disconnecting.
  pub read-send_encrypted :
      (rand : ℕ → Option Bytes) (c d : TcpConnection) (closing : Bool) (data_ rest random : Bytes)
      (fault : Fault)
      → is_disconnecting c.state ≡ false
      → is_disconnecting d.state ≡ false
      → c.session_key ≡ d.session_key
      → length d.session_key ≡ 32
      → rand 3 ≡ some random
      → length random ≡ 3
      → All IsByte random
      → All IsByte data_
      → 0 < length data_
      → length data_ + 32 ≤ max_packet
      → (wire : Bytes) × (send prim rand c background closing (λ i. none) data_ ≡ (ok tt, wire))
        × (read prim d background closing (arriving (wire ++ rest) fault)
            ≡ ok (packet data_ (arriving rest fault)))
  unfolding seal_data open_body
  read-send_encrypted rand c d closing data_ rest random fault oc od same key32 hr h3 br bytes full
        fits =
      let (sent, encrypted, long, opened) =
        symmetric_decrypt-symmetric_encrypt_with_hmac_iv prim rand data_ d.session_key random hr h3
          br full bytes key32 in
      (
        frame sent,
        send-frame rand c closing data_ sent oc full (rw (same, key32, encrypted)),
        read-frame d closing sent rest fault od (omega (arith, long)) ∙ rw (key32, opened),
      )

  -- Data of more than a mebibyte, and less than 4 GiB, is sent without an error, but `read` on the
  -- other side refuses it, if neither side is disconnecting and there is no session key.
  pub read-send_large :
      (rand : ℕ → Option Bytes) (c d : TcpConnection) (closing : Bool) (data_ rest : Bytes)
      (fault : Fault)
      → is_disconnecting c.state ≡ false
      → is_disconnecting d.state ≡ false
      → c.session_key ≡ []
      → max_packet < length data_
      → length data_ < 2 ^ 32
      → (wire : Bytes) × (send prim rand c background closing (λ i. none) data_ ≡ (ok tt, wire))
        × (read prim d background closing (arriving (wire ++ rest) fault) ≡ err packet_too_large)
  unfolding seal_data
  read-send_large rand c d closing data_ rest fault oc od kc large fits = (
    frame data_,
    send-frame rand c closing data_ data_ oc (omega arith) (rw kc),
    read-frame_large d closing data_ rest fault od large fits,
  )
