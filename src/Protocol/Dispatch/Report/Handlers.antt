-- ===== src/Protocol/Dispatch/Report/Handlers.antt =====
-- The handlers of protocol/handlers.go keep what the events say of the session.
use go_steam.Base.Results.{ok, guard}
use go_steam.Base.{ℕ, Bool, true, false, Option, none, some, ◌≡◌, [], ◌∷◌, ◌++◌, List, Bytes, refl}
use go_steam.Protocol.Message.{Header}
use go_steam.Protocol.State.{
  connected, logged_on, Protocol, and_then_keeps, M, and_then, is_positive, ticker_panic,
}
use go_steam.Protocol.Handlers.{
  Outside, respond, handle_channel_encrypt_request, handle_channel_encrypt_result,
  handle_client_log_on_response, start_heartbeat, handle_client_item_announcements,
  handle_client_user_notifications, offer_notifications,
}
use go_steam.Protocol.Dispatch.Report.{
  after_event, reported, reported_from-append, ids_of, is_some, IsReported, and_then_ok-IsReported,
  emit-IsReported, offer-IsReported, write-IsReported, send-IsReported,
}

module _ {C : Type 0} (out : Outside C) where
  pub request-IsReported :
      (header : Header) (body : Bytes) (h : Protocol C)
      → IsReported h
      → IsReported (handle_channel_encrypt_request out header body h).1
  unfolding handle_channel_encrypt_request respond
  request-IsReported header body h x = and_then_keeps IsReported _ _ x (λ p h1 x1.
      and_then_keeps IsReported _ _ x1 (λ _ h2 x2. and_then_keeps IsReported _ _ x2 (λ u h3 x3.
        and_then_keeps IsReported _ _ x3 (λ _ h4 x4. and_then_keeps IsReported _ _ x4 (λ n h5 x5.
          and_then_keeps IsReported _ _ x5 (λ k h6 x6. and_then_ok-IsReported _ _ _ (
            write-IsReported out _ _ _
              (record { ids = x6.ids; runs = x6.runs; positive = x6.positive }))))))))

  pub result-IsReported :
      (body : Bytes) (h : Protocol C)
      → IsReported h
      → IsReported (handle_channel_encrypt_result out body h).1
  unfolding handle_channel_encrypt_result after_event
  result-IsReported body h x = and_then_keeps IsReported _ _ x (λ p h1 x1.
      and_then_keeps IsReported _ _ x1 (λ _ h2 x2. and_then_ok-IsReported _ _ _ (
        emit-IsReported _ connected (λ o. refl)
          (record { ids = x2.ids; runs = x2.runs; positive = x2.positive }))))

  some-injective : (m n : ℕ) → ◌≡◌ {A = Option ℕ} (some m) (some n) → m ≡ n
  some-injective m n h = cc

  -- The only change of the session, with its event.
  logged_on-IsReported :
      (h : Protocol C) (seconds steam_id session_id : ℕ)
      → is_positive seconds ≡ true
      → IsReported (record h {
        heartbeat = some seconds;
        steam_id = steam_id;
        session_id = session_id;
        events = h.events ++ logged_on steam_id session_id ∷ [];
      })
  unfolding reported after_event ids_of is_some
  logged_on-IsReported h seconds steam_id session_id good =
      let last = reported_from-append none h.events (logged_on steam_id session_id) in
      record {
        ids = rw last refl;
        runs = rw last refl;
        positive = λ n e. rw (← some-injective seconds n e) good;
      }

  -- What follows the start of a heartbeat runs only if there is one.
  start_heartbeat-IsReported :
      {B : Type 0} (seconds : ℕ) (h : Protocol C) (f : Unit {0} → M C B)
      → IsReported h
      → (is_positive seconds ≡ true → IsReported (f tt (record h { heartbeat = some seconds })).1)
      → IsReported (and_then (start_heartbeat out seconds h) f).1
  unfolding start_heartbeat and_then
  start_heartbeat-IsReported seconds h f x after = go (is_positive seconds) refl
    where
      go :
          (b : Bool)
          → is_positive seconds ≡ b
          → IsReported
              (and_then
                (and_then
                  (guard b ticker_panic, h)
                  (λ _ h1. (ok tt, record h1 { heartbeat = some seconds })))
                f).1
      go true e = after e
      go false e = x

  pub response-IsReported :
      (header : Header) (body : Bytes) (h : Protocol C)
      → IsReported h
      → IsReported (handle_client_log_on_response out header body h).1
  unfolding handle_client_log_on_response
  response-IsReported header body h x = and_then_keeps IsReported _ _ x (λ resp h1 x1.
      and_then_keeps IsReported _ _ x1 (λ _ h2 x2.
        and_then_keeps IsReported _ _ x2 (λ seconds h3 x3.
          start_heartbeat-IsReported seconds h3 _ x3 (λ good. and_then_ok-IsReported _ _ _ (
            and_then_ok-IsReported _ _ _ (
              and_then_ok-IsReported _ _ _
                (send-IsReported out _ _ _ (logged_on-IsReported h3 seconds _ _ good))))))))

  pub announcements-IsReported :
      (body : Bytes) (h : Protocol C)
      → IsReported h
      → IsReported (handle_client_item_announcements out body h).1
  unfolding handle_client_item_announcements after_event
  announcements-IsReported body h x =
      and_then_keeps IsReported _ _ x (λ count h1. offer-IsReported out.ready h1 _ (λ o. refl))

  offer_notifications-IsReported :
      (ns : List (ℕ × ℕ)) (h : Protocol C)
      → IsReported h
      → IsReported (offer_notifications out ns h).1
  unfolding offer_notifications after_event
  offer_notifications-IsReported [] h x = x
  offer_notifications-IsReported ((kind, count) ∷ ns) h x =
      and_then_keeps IsReported _ _ (offer-IsReported out.ready h _ (λ o. refl) x)
        (λ _ h1. offer_notifications-IsReported ns h1)

  pub notifications-IsReported :
      (body : Bytes) (h : Protocol C)
      → IsReported h
      → IsReported (handle_client_user_notifications out body h).1
  unfolding handle_client_user_notifications
  notifications-IsReported body h x =
      and_then_keeps IsReported _ _ x (λ ns h1. offer_notifications-IsReported ns h1)
