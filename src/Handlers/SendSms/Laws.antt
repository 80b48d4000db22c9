-- ===== src/Handlers/SendSms/Laws.antt =====
-- The handler keeps what the router asks of one, and an SMS that is out is not sent again.
use ushnotice.Common.{
  ◌≡◌, refl, ap, ◌∙◌, String, ◌==◌, true, Option, none, some, List, [], ◌∷◌, All, Bool-cases, inl,
  inr,
}
use ushnotice.Json.{Json, str}
use ushnotice.Domain.Enums.{sms}
use ushnotice.Domain.Models.{Event}
use ushnotice.Domain.Values.{Recipient, recipient}
use ushnotice.Store.{World}
use ushnotice.Store.Events.{is_real_id}
use ushnotice.Events.Envelope.{EventEnvelope}
use ushnotice.Events.Handler.{LeavesRouting, LeavesCommits}
use ushnotice.Events.Registry.{Registry, resolve}
use ushnotice.Events.Processor.{SqsIds, stored, process_valid}
use ushnotice.Events.Processor.Redelivery.{Untouched, process_valid_twice}
use ushnotice.Notify.Settings.{Settings}
use ushnotice.Notify.Services.{Services, KeepsKeys}
use ushnotice.Notify.Service.{dedup_key}
use ushnotice.Notify.Service.Frame.{core, core-send}
use ushnotice.Notify.Service.Laws.{send_held}
use ushnotice.Handlers.SendSms.{
  request, send_request, send_all, send_content, phone_numbers, language_of, handle, handler,
}

-- the recipient, if there is one, of an SMS
abbrev IsSms : Option Recipient → Type 0
IsSms none = Unit
IsSms (some r) = r.channel ≡ sms

recipient-IsSms :
    (strip : String → String) (phone name language : String)
    → IsSms (recipient strip sms phone name language)
unfolding recipient
recipient-IsSms strip phone name language = elim (Bool-cases (phone == "")) [
  | inl empty ↦ rw (empty, recipient) tt
  | inr full ↦ rw (full, recipient) refl
]

module _ {E : Type 0} (s : Services E) (settings : Settings) (attribute_error : Json → String) where
  core-send_request :
      (env : EventEnvelope) (content : String) (r : Option Recipient) (w : World E)
      → core (send_request s settings attribute_error env content r w) ≡ core w
  unfolding send_request
  core-send_request env content none w = refl
  core-send_request env content (some r) w =
      core-send s settings (request s settings attribute_error env content r) w

  core-send_all :
      (env : EventEnvelope) (content : String) (phones : List String) (w : World E)
      → core (send_all s settings attribute_error env content phones w) ≡ core w
  unfolding send_all
  core-send_all env content [] w = refl
  core-send_all env content (phone ∷ phones) w =
      core-send_all env content phones _ ∙ core-send_request env content _ w

  core-send_content :
      (env : EventEnvelope) (v : Json) (w : World E)
      → core (send_content s settings attribute_error env v w).1 ≡ core w
  unfolding send_content
  core-send_content env (str t) w = elim (Bool-cases (s.strip t == "")) [
    | inl empty ↦ rw (empty, send_content) refl
    | inr full ↦
        rw (full, send_content)
          (core-send_all env (s.strip t) (phone_numbers s settings attribute_error env.body) w)
  ]
  core-send_content env _ w = refl

  pub core-handle :
      (env : EventEnvelope) (w : World E)
      → core (handle s settings attribute_error env w).1 ≡ core w
  unfolding handle
  core-handle env w = core-send_content env _ w

  pub handler-LeavesRouting : LeavesRouting (handler s settings attribute_error)
  unfolding handler handle
  handler-LeavesRouting = record {
    events = λ env w. ap (λ c. c.0) (core-send_content env _ w);
    processings = λ env w. ap (λ c. c.1) (core-send_content env _ w);
  }

  pub handler-LeavesCommits : LeavesCommits (handler s settings attribute_error)
  unfolding handler handle
  handler-LeavesCommits = record { saved = λ env w. ap (λ c. c.2) (core-send_content env _ w) }

  -- If an event with an id of its own, whose type has SendSMSHandler alone, was processed and
  -- stored, then processing it again sends nothing: it stores the row it finds, with the same key,
  -- and leaves the processings, the notifications and the world outside the database as they were.
  pub process_sms_twice :
      (registry : Registry E) (env : EventEnvelope) (ids ids' : SqsIds) (w : World E)
      (event : Event)
      → is_real_id env.event_id ≡ true
      → resolve env.event_type registry ≡ some (handler s settings attribute_error ∷ [])
      → (process_valid registry env ids w).0 ≡ stored event
      → Untouched event
          (process_valid registry env ids w).1
          (process_valid registry env ids' (process_valid registry env ids w).1)
  process_sms_twice registry env ids ids' w event real known out =
      process_valid_twice registry env ids ids' w (handler s settings attribute_error ∷ []) event
        real known (handler-LeavesRouting, tt) out

  module _ (keys : KeepsKeys s) where
    -- The claim of the message to a recipient, if there is one, is held.
    abbrev pub IsClaimed : EventEnvelope → String → World E → Option Recipient → Type 0
    IsClaimed env content w none = Unit
    IsClaimed env content w (some r) =
        keys.held (dedup_key (request s settings attribute_error env content r)) w.env ≡ true

    abbrev pub to_phone : EventEnvelope → String → Option Recipient
    to_phone env phone =
        recipient s.strip sms phone "" (language_of s settings attribute_error env.body)

    send_request_held :
        (env : EventEnvelope) (content : String) (r : Option Recipient) (w : World E)
        → IsSms r
        → IsClaimed env content w r
        → send_request s settings attribute_error env content r w ≡ w
    unfolding send_request request
    send_request_held env content none w c h = refl
    send_request_held env content (some r) w c h =
        ap (λ x. x.1)
          (send_held s settings keys (request s settings attribute_error env content r) w (rw c) h)

    -- With a Redis that keeps its keys, while the claim of the message to each of the numbers is
    -- held, the loop over the numbers sends nothing and changes nothing.
    pub send_all_held :
        (env : EventEnvelope) (content : String) (phones : List String) (w : World E)
        → All (λ phone. IsClaimed env content w (to_phone env phone)) phones
        → send_all s settings attribute_error env content phones w ≡ w
    unfolding send_all
    send_all_held env content [] w h = refl
    send_all_held env content (phone ∷ phones) w (h, hs) =
        rw
          (send_request_held env content (to_phone env phone) w
            (recipient-IsSms s.strip phone "" (language_of s settings attribute_error env.body)) h)
          (send_all_held env content phones w hs)
