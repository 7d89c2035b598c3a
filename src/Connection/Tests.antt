-- ===== src/Connection/Tests.antt =====
-- The theorems on the connection at concrete connections and packets.
use go_steam.Base.{
  ℕ, suc, some, ◌+◌, ◌≤◌, ◌≡◌, refl, false, none, [], ◌∷◌, ◌++◌, Bytes, length, length-replicate,
  replicate, All, All-append, IsByte, arith,
}
use go_steam.Base.Results.{ok, err}
use go_steam.Base.Binary.{le_bytes, le_bytes-IsByte}
use go_steam.Crypto.Tests.{
  test_primitives, test_key, test_rand, test_message, key_length, message_bytes, random_bytes,
}
use go_steam.Connection.State.{
  TcpConnection, connected_encrypted, new_tcp_connection, set_session_key, close, here, key_set,
  closed, IsConsistent, Reach-new-IsConsistent,
}
use go_steam.Connection.Network.{ended}
use go_steam.Connection.Dial.{Dialer}
use go_steam.Connection.Tcp.{
  background, open_body, tcp_magic, max_packet, packet, packet_too_large, read, send,
}
use go_steam.Connection.Tcp.Framing.{
  arriving, frame, read-frame, read-send_encrypted, read-send_large,
}
use go_steam.Connection.Tcp.Reads.{read_sound}

Reach-new-IsConsistent_example : IsConsistent (close (set_session_key new_tcp_connection (7 ∷ [])))
Reach-new-IsConsistent_example =
    Reach-new-IsConsistent (close (set_session_key new_tcp_connection (7 ∷ [])))
      (closed (key_set (7 ∷ []) here))

abbrev keyed_connection : TcpConnection
keyed_connection = record { state = connected_encrypted; session_key = test_key }

read-send_encrypted_example :
    (wire : Bytes) × (send test_primitives test_rand keyed_connection background false
        (λ i. none)
        test_message
      ≡ (ok tt, wire))
    × (read test_primitives keyed_connection background false (arriving (wire ++ 9 ∷ []) ended)
        ≡ ok (packet test_message (arriving (9 ∷ []) ended)))
read-send_encrypted_example =
    read-send_encrypted test_primitives test_rand keyed_connection keyed_connection false
      test_message (9 ∷ []) (replicate 3 5) ended refl refl refl key_length refl refl random_bytes
      message_bytes (omega arith) (omega arith)

zeros : ℕ → Bytes
zeros n = replicate n 0

length-zeros : (n : ℕ) → length (zeros n) ≡ n
unfolding zeros
length-zeros n = length-replicate {A = ℕ} n 0

-- One byte more than a mebibyte.
abbrev large_message : Bytes
large_message = zeros (max_packet + 1)

read-send_large_example :
    (wire : Bytes) × (send test_primitives test_rand new_tcp_connection background false
        (λ i. none)
        large_message
      ≡ (ok tt, wire))
    × (read test_primitives new_tcp_connection background false (arriving (wire ++ 9 ∷ []) ended)
        ≡ err packet_too_large)
read-send_large_example =
    read-send_large test_primitives test_rand new_tcp_connection new_tcp_connection false
      large_message (9 ∷ []) ended refl refl refl (omega (arith, length-zeros (max_packet + 1)))
      (omega (arith, length-zeros (max_packet + 1)))

abbrev arrived : Bytes
arrived = frame test_message ++ 9 ∷ []

arrived_bytes : All IsByte arrived
arrived_bytes =
    All-append IsByte (frame test_message) (9 ∷ [])
      (All-append IsByte (le_bytes 4 3) (le_bytes 4 tcp_magic ++ test_message) (le_bytes-IsByte 4 3)
        (All-append IsByte (le_bytes 4 tcp_magic) test_message (le_bytes-IsByte 4 tcp_magic)
          message_bytes))
      (omega arith, tt)

arrived_read :
    read test_primitives new_tcp_connection background false (arriving arrived ended)
    ≡ ok (packet test_message (arriving (9 ∷ []) ended))
unfolding open_body
arrived_read =
    read-frame test_primitives new_tcp_connection false test_message (9 ∷ []) ended refl
      (omega arith)

read_sound_example : (length test_message ≤ max_packet) × (arrived ≡ frame test_message ++ 9 ∷ [])
read_sound_example =
    read_sound test_primitives new_tcp_connection background false (arriving arrived ended)
      (arriving (9 ∷ []) ended) test_message refl arrived_bytes arrived_read

-- A dialer that counts its calls, and the peer sends back the address.
abbrev echo_dialer : Dialer ℕ
echo_dialer address w = (some (arriving address ended), suc w)
