-- ===== src/Protocol/Dispatch/Depth.antt =====
-- The depth that `readMessage` (protocol/read.go) is given in the model.
use go_steam.Base.{
  ap, false, ℕ, zero, suc, ◌+◌, inl, inr, ◌≡◌, ◌≢◌, refl, ◌∙◌, sym, Bytes, Bool-cases, ◌==◌, arith,
}
use go_steam.Base.Results.{err}
use go_steam.Protocol.Message.{
  Header, emsg_channel_encrypt_request, emsg_channel_encrypt_result, emsg_client_log_on_response,
  emsg_multi,
}
use go_steam.Protocol.State.{Protocol, too_deep, M}
use go_steam.Protocol.Handlers.{Outside}
use go_steam.Protocol.Multi.Depth.{Agrees, and_then-Agrees, handle_multi-Agrees}
use go_steam.Protocol.Dispatch.{dispatch, handle_message, read_message}

module _ {C : Type 0} (out : Outside C) where
  dispatch-Agrees :
      (m n : Bytes → M C (Unit {0})) (header : Header) (body : Bytes) (h : Protocol C)
      → ((bs : Bytes) (h' : Protocol C) → Agrees (m bs h') (n bs h'))
      → Agrees (dispatch out m header body h) (dispatch out n header body h)
  unfolding dispatch
  dispatch-Agrees m n header body h mn = elim (Bool-cases (header.emsg == emsg_multi)) [
    | inl multi ↦
        let request : (header.emsg == emsg_channel_encrypt_request) ≡ false = ground arith in
        let result : (header.emsg == emsg_channel_encrypt_result) ≡ false = ground arith in
        let response : (header.emsg == emsg_client_log_on_response) ≡ false = ground arith in
        rw (request, result, response, multi) (handle_multi-Agrees m n out body h mn)
    | inr other ↦ inl (rw other refl)
  ]

  read_message-Agrees :
      (depth : ℕ) (r : Bytes) (h : Protocol C)
      → Agrees (read_message out depth r h) (read_message out (suc depth) r h)
  unfolding read_message handle_message
  read_message-Agrees zero r h = inr refl
  read_message-Agrees (suc depth) r h = and_then-Agrees _ _ _ _ (inl refl) (λ p h'.
      and_then-Agrees _ _ _ _ (inl refl) (λ _ h''.
        dispatch-Agrees (read_message out depth) (read_message out (suc depth)) p.0 p.1 h''
          (read_message-Agrees depth)))

  -- A message that is read at some depth, without giving up there, is read in the same way at every
  -- greater depth.
  pub read_message_deeper :
      (k depth : ℕ) (r : Bytes) (h : Protocol C)
      → (read_message out depth r h).0 ≢ err too_deep
      → read_message out (k + depth) r h ≡ read_message out depth r h
  read_message_deeper zero depth r h done =
      let same : 0 + depth ≡ depth = omega arith in rw same refl
  read_message_deeper (suc k) depth r h done =
      let next : suc k + depth ≡ suc (k + depth) = omega arith in
      let before = read_message_deeper k depth r h done in
      elim (read_message-Agrees (k + depth) r h) [
        | inl same ↦ rw next (sym same ∙ before)
        | inr deep ↦ absurd (done (ap (λ x. x.0) (sym before) ∙ deep))
      ]
