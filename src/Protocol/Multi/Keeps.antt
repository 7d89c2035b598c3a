-- ===== src/Protocol/Multi/Keeps.antt =====
-- `handleMulti` (protocol/handlers.go) keeps what the reader of the packed messages keeps.
use go_steam.Base.{ℕ, zero, suc, Bytes, length, ◌==◌}
use go_steam.Protocol.State.{Protocol, M, and_then_keeps, if_keeps}
use go_steam.Protocol.Handlers.{Outside}
use go_steam.Protocol.Multi.{sub_messages, handle_multi}

module _ {C : Type 0} (P : Protocol C → Type 0) (next : Bytes → M C (Unit {0}))
    (keeps : (bs : Bytes) (h : Protocol C) → P h → P (next bs h).1) where
  sub_messages_keeps : (n : ℕ) (r : Bytes) (h : Protocol C) → P h → P (sub_messages next n r h).1
  unfolding sub_messages
  sub_messages_keeps zero r h x = if_keeps P (length r == 0) _ _ h x x
  sub_messages_keeps (suc n) r h x = if_keeps P (length r == 0) _ _ h x (
      and_then_keeps P _ _ x
        (λ p h1 x1. and_then_keeps P _ _ (keeps p.0 h1 x1) (λ _ h2. sub_messages_keeps n p.1 h2)))

  pub handle_multi_keeps :
      (out : Outside C) (body : Bytes) (h : Protocol C) → P h → P (handle_multi next out body h).1
  unfolding handle_multi
  handle_multi_keeps out body h x = and_then_keeps P _ _ x (λ multi h1 x1.
      and_then_keeps P _ _ x1
        (λ _ h2 x2. and_then_keeps P _ _ x2 (λ bs h3. sub_messages_keeps (length bs) bs h3)))
