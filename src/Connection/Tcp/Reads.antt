-- ===== src/Connection/Tcp/Reads.antt =====
-- What a packet that `Read` returns (connection/tcp.go) says of the bytes that arrived.
use go_steam.Base.{
  ℕ, ◌%◌, ◌^◌, ◌≤◌, Bool, true, false, [], ◌++◌, ◌≡◌, ◌≢◌, refl, ◌∙◌, sym, append_assoc, Bytes,
  length, ltb, ◌==◌, ==_iff, if◌then◌else◌, arith, All, All-split, IsByte,
}
use go_steam.Base.Binary.{le_bytes, le_value, read_full_split, le_bytes-le_value}
use go_steam.Base.Results.{Result, ok, err, bind_inv}
use go_steam.Crypto.Primitives.{Primitives}
use go_steam.Connection.State.{TcpConnection}
use go_steam.Connection.Network.{NetError, Incoming, net_read, net_read_u32}
use go_steam.Connection.Tcp.{
  tcp_magic, max_packet, Context, TcpError, Packet, packet, read_length_failed, read_magic_failed,
  read_body_failed, packet_too_large, on_error, and_then, open_body, read_body, read_magic, read,
}
use go_steam.Connection.Tcp.Framing.{frame}

net_read_inv :
    (n : ℕ) (incoming rest : Incoming) (bs : Bytes)
    → net_read n incoming ≡ ok (bs, rest)
    → (incoming.bytes ≡ bs ++ rest.bytes) × (length bs ≡ n)
unfolding net_read
net_read_inv n incoming rest bs h = ground (arith, read_full_split n incoming.bytes bs rest.bytes)

on_error_packet :
    (closing : Bool) (wrap : NetError → TcpError) (e : NetError) (bs : Bytes) (rest : Incoming)
    → on_error closing wrap e ≢ ok (packet bs rest)
unfolding on_error
on_error_packet closing wrap e bs rest h = ground arith

and_then_inv :
    {A : Type 0} (closing : Bool) (wrap : NetError → TcpError) (r : Result NetError (A × Incoming))
    (next : A → Incoming → Result TcpError Packet) (bs : Bytes) (rest : Incoming)
    → and_then closing wrap r next ≡ ok (packet bs rest)
    → (a : A) × (i : Incoming) × (r ≡ ok (a, i)) × (next a i ≡ ok (packet bs rest))
unfolding and_then
and_then_inv closing wrap (err e) next bs rest h = absurd (on_error_packet closing wrap e bs rest h)
and_then_inv closing wrap (ok (a, i)) next bs rest h = (a, i, refl, h)

net_read_u32_inv :
    (incoming rest : Incoming) (v : ℕ)
    → All IsByte incoming.bytes
    → net_read_u32 incoming ≡ ok (v, rest)
    → (incoming.bytes ≡ le_bytes 4 v ++ rest.bytes) × All IsByte rest.bytes
unfolding net_read_u32
net_read_u32_inv incoming rest v bytes h =
    let ((bs, left), got, done) = bind_inv (net_read 4 incoming) _ h in
    let (whole, four) = net_read_inv 4 incoming left bs got in
    let (front, back) = All-split IsByte bs left.bytes (rw (sym whole) bytes) in
    let value : le_value bs ≡ v = cc in
    let same : left ≡ rest = cc in
    let printed : le_bytes 4 v ≡ bs = rw (sym value, sym four) (le_bytes-le_value bs front) in
    (rw (printed, sym same) whole, rw (sym same) back)

if_ok :
    {A B : Type 0} (b : Bool) (m : Result A B) (e : A) {r : B}
    → (if b then m else err e) ≡ ok r
    → (b ≡ true) × (m ≡ ok r)
if_ok true m e h = (refl, h)
if_ok false m e h = cc

else_ok :
    {A B : Type 0} (b : Bool) (m : Result A B) (e : A) {r : B}
    → (if b then err e else m) ≡ ok r
    → (b ≡ false) × (m ≡ ok r)
else_ok true m e h = cc
else_ok false m e h = (refl, h)

module _ (prim : Primitives) where
  read_body_inv :
      (c : TcpConnection) (closing : Bool) (n : ℕ) (incoming rest : Incoming) (bs : Bytes)
      → c.session_key ≡ []
      → read_body prim c closing n incoming ≡ ok (packet bs rest)
      → (length bs ≡ n) × (incoming.bytes ≡ bs ++ rest.bytes)
  unfolding read_body open_body
  read_body_inv c closing n incoming rest bs k h =
      let (body, left, got, done) =
        and_then_inv closing read_body_failed (net_read n incoming) _ bs rest h in
      let (whole, long) = net_read_inv n incoming left body got in
      let kept : ltb (length body) n ≡ false = ground arith in ground arith

  read_magic_inv :
      (c : TcpConnection) (closing : Bool) (n : ℕ) (incoming rest : Incoming) (bs : Bytes)
      → c.session_key ≡ []
      → All IsByte incoming.bytes
      → read_magic prim c closing n incoming ≡ ok (packet bs rest)
      → (length bs ≡ n) × (incoming.bytes ≡ le_bytes 4 tcp_magic ++ (bs ++ rest.bytes))
  unfolding read_magic
  read_magic_inv c closing n incoming rest bs k bytes h =
      let (magic, left, got, done) =
        and_then_inv closing read_magic_failed (net_read_u32 incoming) _ bs rest h in
      let (whole, _) = net_read_u32_inv incoming left magic bytes got in
      let (is_magic, body) = if_ok (magic == tcp_magic) _ _ done in
      let value : magic ≡ tcp_magic = (==_iff magic tcp_magic).0 is_magic in
      let (long, rest_) = read_body_inv c closing n left rest bs k body in
      (long, whole ∙ rw (value, rest_) refl)

  -- What `read` does behind its first checks.
  abbrev from_length : TcpConnection → Bool → Incoming → Result TcpError Packet
  from_length c closing incoming =
      and_then closing read_length_failed (net_read_u32 incoming) (λ n rest.
        if ltb max_packet n then err packet_too_large else read_magic prim c closing n rest)

  read_checked :
      (c : TcpConnection) (ctx : Context) (closing : Bool) (incoming rest : Incoming) (bs : Bytes)
      → read prim c ctx closing incoming ≡ ok (packet bs rest)
      → from_length c closing incoming ≡ ok (packet bs rest)
  unfolding read
  read_checked c ctx closing incoming rest bs h = ground arith

  -- A packet that is read without a session key, from bytes that arrive, is the body of a frame of
  -- at most a mebibyte in front of the bytes that are left.
  pub read_sound :
      (c : TcpConnection) (ctx : Context) (closing : Bool) (incoming rest : Incoming) (bs : Bytes)
      → c.session_key ≡ []
      → All IsByte incoming.bytes
      → read prim c ctx closing incoming ≡ ok (packet bs rest)
      → (length bs ≤ max_packet) × (incoming.bytes ≡ frame bs ++ rest.bytes)
  read_sound c ctx closing incoming rest bs k bytes h =
      let (n, left, got, done) =
        and_then_inv closing read_length_failed (net_read_u32 incoming) _ bs rest
          (read_checked c ctx closing incoming rest bs h) in
      let (whole, bytes_left) = net_read_u32_inv incoming left n bytes got in
      let (fits, opened) = else_ok (ltb max_packet n) _ _ done in
      let (long, whole_left) = read_magic_inv c closing n left rest bs k bytes_left opened in
      let small : n ≤ max_packet = ground arith in
      let number : length bs % 2 ^ 32 ≡ n = omega arith in
      (
        omega arith,
        whole
            ∙ rw
                (
                  whole_left,
                  number,
                  append_assoc (le_bytes 4 n) (le_bytes 4 tcp_magic ++ bs) rest.bytes,
                  append_assoc (le_bytes 4 tcp_magic) bs rest.bytes,
                )
                refl,
      )
