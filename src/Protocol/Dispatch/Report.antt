-- ===== src/Protocol/Dispatch/Report.antt =====
-- What the events say of the session, against the fields of `Protocol`: the ids of the last
-- `logged_on`, and whether a heartbeat runs, which has seconds that are positive.
pub mod Handlers
pub mod Run
use go_steam.Base.{
  ℕ, zero, suc, Bool, true, false, Option, none, some, [], ◌∷◌, ◌++◌, List, Bytes, ◌≡◌, refl, ◌∙◌,
  length, ◌==◌, if◌then◌else◌,
}
use go_steam.Base.Results.{Result, ok, err, wrap_err}
use go_steam.Protocol.Message.{Header}
use go_steam.Protocol.State.{
  Event, message_sent, message_received, connected, logged_on, item_announcements,
  user_notification, failed, Connection, Protocol, new_protocol, ProtocolError, M, and_then,
  and_then_keeps, offer, read_failed_, is_positive,
}
use go_steam.Protocol.Handlers.{
  Outside, send_packet, write, send, respond, handle_channel_encrypt_request,
  handle_channel_encrypt_result, handle_client_log_on_response, start_heartbeat,
  handle_client_item_announcements, handle_client_user_notifications, offer_notifications,
}
use go_steam.Protocol.Multi.{sub_messages, handle_multi}
use go_steam.Protocol.Dispatch.{dispatch, handle_message, read_message, read_packet, run}

-- The ids that the last `logged_on` of the events reports.
after_event : Event → Option (ℕ × ℕ) → Option (ℕ × ℕ)
after_event (logged_on steam_id session_id) o = some (steam_id, session_id)
after_event _ o = o

reported_from : Option (ℕ × ℕ) → List Event → Option (ℕ × ℕ)
reported_from o [] = o
reported_from o (e ∷ es) = reported_from (after_event e o) es

pub reported : List Event → Option (ℕ × ℕ)
reported es = reported_from none es

pub ids_of : Option (ℕ × ℕ) → ℕ × ℕ
ids_of none = (0, 0)
ids_of (some ids) = ids

pub is_some : {A : Type 0} → Option A → Bool
is_some none = false
is_some (some a) = true

pub record IsReported {C : Type 0} (h : Protocol C) : Type 0 where
  pub ids : (h.steam_id, h.session_id) ≡ ids_of (reported h.events)
  pub runs : is_some h.heartbeat ≡ is_some (reported h.events)
  pub positive : (seconds : ℕ) → h.heartbeat ≡ some seconds → is_positive seconds ≡ true

reported_from-append :
    (o : Option (ℕ × ℕ)) (es : List Event) (e : Event)
    → reported_from o (es ++ e ∷ []) ≡ after_event e (reported_from o es)
unfolding reported_from
reported_from-append o [] e = refl
reported_from-append o (x ∷ es) e = reported_from-append (after_event x o) es e

-- An event that says nothing of the session.
reported-other :
    (es : List Event) (e : Event)
    → ((o : Option (ℕ × ℕ)) → after_event e o ≡ o)
    → reported (es ++ e ∷ []) ≡ reported es
unfolding reported
reported-other es e other = reported_from-append none es e ∙ other (reported_from none es)

module _ {C : Type 0} where
  and_then_ok-IsReported :
      {A B : Type 0} (a : A) (h : Protocol C) (f : A → M C B)
      → IsReported (f a h).1
      → IsReported (and_then (ok a, h) f).1
  unfolding and_then
  and_then_ok-IsReported a h f x = x

  emit-IsReported :
      (h : Protocol C) (e : Event)
      → ((o : Option (ℕ × ℕ)) → after_event e o ≡ o)
      → IsReported h
      → IsReported (record h { events = h.events ++ e ∷ [] })
  emit-IsReported h e other x = record {
    ids = rw (reported-other h.events e other) x.ids;
    runs = rw (reported-other h.events e other) x.runs;
    positive = x.positive;
  }

  offer-IsReported :
      (ready : ℕ → Bool) (h : Protocol C) (e : Event)
      → ((o : Option (ℕ × ℕ)) → after_event e o ≡ o)
      → IsReported h
      → IsReported (offer ready e h).1
  offer-IsReported ready h e other x = go (ready h.offers)
    where
      go :
          (b : Bool)
          → IsReported (record h {
            events = if b then h.events ++ e ∷ [] else h.events;
            offers = suc h.offers;
          })
      go true =
          let y = emit-IsReported h e other x in
          record { ids = y.ids; runs = y.runs; positive = y.positive }
      go false = record { ids = x.ids; runs = x.runs; positive = x.positive }

module _ {C : Type 0} (out : Outside C) where
  send_packet-IsReported :
      (bs : Bytes) (h : Protocol C) → IsReported h → IsReported (send_packet out bs h).1
  unfolding send_packet
  send_packet-IsReported bs h x = record { ids = x.ids; runs = x.runs; positive = x.positive }

  write-IsReported :
      (header : Header) (body : Bytes) (h : Protocol C)
      → IsReported h
      → IsReported (write out header body h).1
  unfolding write
  write-IsReported header body h x =
      and_then_keeps IsReported _ _ x (λ wire h'. send_packet-IsReported _ h')

  send-IsReported :
      (header : Header) (body : Option Bytes) (h : Protocol C)
      → IsReported h
      → IsReported (send out header body h).1
  unfolding send after_event
  send-IsReported header body h x =
      and_then_keeps IsReported _ _ (offer-IsReported out.ready h _ (λ o. refl) x)
        (λ _ h1 x1. and_then_keeps IsReported _ _ x1 (λ b h2. write-IsReported header b h2))
