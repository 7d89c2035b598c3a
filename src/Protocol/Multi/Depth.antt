-- ===== src/Protocol/Multi/Depth.antt =====
-- `handleMulti` (protocol/handlers.go) with two readers of the packed messages, of which the first
-- is the second but for where it gives up as too deep.
use go_steam.Base.{ℕ, zero, suc, ◌⊎◌, inl, inr, Bytes, ◌≡◌, refl, sym, length, ◌==◌, Bool-cases}
use go_steam.Base.Results.{Result, ok, err}
use go_steam.Protocol.State.{Protocol, ProtocolError, too_deep, M, and_then}
use go_steam.Protocol.Handlers.{Outside}
use go_steam.Protocol.Multi.{sub_messages, handle_multi}

-- Two results that are the same, or the first of which gave up.
abbrev pub Agrees :
    {C A : Type 0}
    → Result ProtocolError A × Protocol C
    → Result ProtocolError A × Protocol C
    → Type 0
Agrees x y = (x ≡ y) ⊎ (x.0 ≡ err too_deep)

pub and_then-Agrees :
    {C A B : Type 0} (x y : Result ProtocolError A × Protocol C) (f g : A → M C B)
    → Agrees x y
    → ((a : A) (h : Protocol C) → Agrees (f a h) (g a h))
    → Agrees (and_then x f) (and_then y g)
unfolding and_then
and_then-Agrees (ok a, h) y f g (inl same) fg = rw (sym same) (fg a h)
and_then-Agrees (err e, h) y f g (inl same) fg = inl (rw (sym same) refl)
and_then-Agrees (ok a, h) y f g (inr deep) fg = absurd (cc)
and_then-Agrees (err e, h) y f g (inr deep) fg = inr (cc)

module _ {C : Type 0} (m n : Bytes → M C (Unit {0})) where
  sub_messages-Agrees :
      (k : ℕ) (r : Bytes) (h : Protocol C)
      → ((bs : Bytes) (h' : Protocol C) → Agrees (m bs h') (n bs h'))
      → Agrees (sub_messages m k r h) (sub_messages n k r h)
  unfolding sub_messages
  sub_messages-Agrees zero r h mn = inl refl
  sub_messages-Agrees (suc k) r h mn = elim (Bool-cases (length r == 0)) [
    | inl none_left ↦ inl (rw none_left refl)
    | inr left ↦ rw left (
        and_then-Agrees _ _ _ _ (inl refl)
          (λ p h'. and_then-Agrees _ _ _ _ (mn p.0 h') (λ _ h''. sub_messages-Agrees k p.1 h'' mn)))
  ]

  pub handle_multi-Agrees :
      (out : Outside C) (body : Bytes) (h : Protocol C)
      → ((bs : Bytes) (h' : Protocol C) → Agrees (m bs h') (n bs h'))
      → Agrees (handle_multi m out body h) (handle_multi n out body h)
  unfolding handle_multi
  handle_multi-Agrees out body h mn = and_then-Agrees _ _ _ _ (inl refl) (λ multi h1.
      and_then-Agrees _ _ _ _ (inl refl) (λ _ h2.
        and_then-Agrees _ _ _ _ (inl refl) (λ bs h3. sub_messages-Agrees (length bs) bs h3 mn)))
