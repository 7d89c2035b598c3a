-- ===== src/Connection/Dial/Laws.antt =====
-- When `NewTCPConnection` succeeds.
use go_steam.Base.{
  Bool, true, false, Option, none, some, [], Bytes, empty-cases, ◌≡◌, ◌≢◌, ◌↔◌, inl, inr, refl, ap,
  ◌∙◌,
}
use go_steam.Base.Results.{Result, ok, err}
use go_steam.Connection.State.{TcpConnection, new_tcp_connection}
use go_steam.Connection.Network.{Incoming}
use go_steam.Connection.Dial.{Dialer, DialError, empty_address, dialled, dial_tcp}

module _ {W : Type 0} where
  dialled_iff :
      (r : Option Incoming × W) (tcp : TcpConnection) (incoming : Incoming) (w : W)
      → (dialled r ≡ (ok (tcp, incoming), w))
        ↔ ((r ≡ (some incoming, w)) × (tcp ≡ new_tcp_connection))
  unfolding dialled
  dialled_iff (none, w) tcp incoming v = (λ h. cc, λ h. cc)
  dialled_iff (some i, w) tcp incoming v = (λ h. (cc, cc), λ (e, f). cc)

  refused :
      {A : Type 0} (e : DialError) (w : W) {a : A} {v : W}
      → Path (Result DialError A × W) (err e, w) (ok a, v)
      → ⊥
  refused e w h = cc

  -- `NewTCPConnection` succeeds exactly if it has a context, a dialer and an address, and the dialer
  -- reaches the address; the connection is then unencrypted and has no session key.
  pub dial_tcp_iff :
      (context : Bool) (dialer : Option (Dialer W)) (address : Bytes) (tcp : TcpConnection)
      (incoming : Incoming) (w w' : W)
      → (dial_tcp context dialer address w ≡ (ok (tcp, incoming), w')) ↔ (
          (dial : Dialer W) × (context ≡ true)
          × (dialer ≡ some dial)
          × (address ≢ [])
          × (dial address w ≡ (some incoming, w'))
          × (tcp ≡ new_tcp_connection))
  unfolding dial_tcp
  dial_tcp_iff true (some dial) address tcp incoming w w' = (
    λ h. elim (empty-cases address) [
      | inl (empty, t) ↦ absurd (refused empty_address w (rw (t) at h))
      | inr (full, t) ↦
          let (to, _) = dialled_iff (dial address w) tcp incoming w' in
          let (reached, new) = to (rw (t) at h) in (dial, refl, refl, full, reached, new)
    ],
    λ (other, _, same, full, reached, new).
        let (_, from) = dialled_iff (dial address w) tcp incoming w' in
        let one : dial ≡ other = cc in
        elim (empty-cases address) [
          | inl (empty, t) ↦ absurd (full empty)
          | inr (_, t) ↦ rw (t) (from (ap (λ (f : Dialer W). f address w) one ∙ reached, new))
        ],
  )
  dial_tcp_iff true none address tcp incoming w w' = (λ h. cc, λ (d, _, h, _, _, _). cc)
  dial_tcp_iff false none address tcp incoming w w' = (λ h. cc, λ (d, h, _, _, _, _). cc)
  dial_tcp_iff false (some dial) address tcp incoming w w' = (λ h. cc, λ (d, h, _, _, _, _). cc)
