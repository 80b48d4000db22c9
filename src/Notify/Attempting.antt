-- ===== src/Notify/Attempting.antt =====
-- The loop of `_send_impl` in app/notifications/application/notification_service.py: one attempt
-- after another until a provider accepts, refuses for good, or the attempts are used up.
pub mod Laws
pub mod Bounds
use ushnotice.Common.{
  ℕ, zero, suc, ◌+◌, String, ◌<>◌, ◌==◌, Bool, true, false, Option, none, some, if◌then◌else◌,
}
use ushnotice.Json.{Json, null, obj, field, end, as_dict}
use ushnotice.Domain.Enums.{NotificationStatus, NotificationChannel, sms, whatsapp, email}
use ushnotice.Domain.Models.{Notification, NotificationAttempt}
use ushnotice.Domain.Values.{DeliveryResult, NotificationRequest, delivery_fail}
use ushnotice.Store.{World}
use ushnotice.Store.Attempts
use ushnotice.Store.Notifications
use ushnotice.Notify.Renderer.{render_subject}
use ushnotice.Notify.Services.{Services, Delivery, delivered, raised}

-- `raw_response if isinstance(raw_response, dict) else {"raw": raw_response}`
unfoldable pub response_dict : Json → Json
unfolding as_dict
response_dict r = elim (as_dict r) [ some _ ↦ r | none ↦ obj (field "raw" r end) ]

-- an f-string of an optional text
abbrev text_or_none : Option String → String
text_or_none none = "None"
text_or_none (some t) = t

abbrev first_nonempty : String → String → String
first_nonempty a b = if a == "" then b else a

module _ {E : Type 0} (s : Services E) (req : NotificationRequest) (provider body : String) where
  -- the subject of an email; the other channels have none
  abbrev subject : NotificationChannel → String
  subject sms = ""
  subject whatsapp = ""
  subject email = first_nonempty req.subject (
      first_nonempty
        (render_subject s.jinja s.str_of s.strip s.repr req.template_name req.recipient.language
          req.template_context)
        "Notification from USHSPA")

  -- an exception of the provider is a failure that may be retried
  abbrev pub as_result : Delivery → DeliveryResult
  as_result (delivered r) = r
  as_result (raised message) = delivery_fail "UNHANDLED_EXCEPTION" message true null

  -- the call of the channel's provider
  unfoldable pub call : World E → DeliveryResult × World E
  unfolding delivery_fail
  call w =
      let c = req.recipient.channel in
      let (d, env) = s.deliver c req.recipient.address (subject c) body w.env in
      (as_result d, record w { env = env })

  unfoldable pub succeed :
      NotificationAttempt → DeliveryResult → Notification → World E → Notification × World E
  unfolding response_dict
  succeed a r n w =
      let (_, w') =
        Attempts.mark_success a r.provider_message_id (some (response_dict r.raw_response)) w in
      Notifications.update_status n NotificationStatus.sent
        (some ("Successfully sent via " <> provider)) w'

  unfoldable pub record_failure : NotificationAttempt → DeliveryResult → World E → World E
  unfolding response_dict
  record_failure a r w =
      (Attempts.mark_failed a r.error_code r.error_message (some (response_dict r.raw_response))
        r.is_retryable w).1

  unfoldable pub prepare_retry :
      ℕ → DeliveryResult → Notification → World E → Notification × World E
  prepare_retry number r n w =
      let (n', w') = Notifications.increment_retry n w in
      Notifications.update_status n' NotificationStatus.retrying
        (some (
          "Attempt "
          <> s.str_of_int number
          <> " failed: "
          <> text_or_none r.error_message
          <> ". Retrying..."))
        w'

  unfoldable pub give_up : ℕ → DeliveryResult → Notification → World E → Notification × World E
  give_up number r n w =
      Notifications.update_status n NotificationStatus.failed
        (some (
          "Delivery failed on attempt "
          <> s.str_of_int number
          <> ": "
          <> text_or_none r.error_message))
        w

  -- The loop at attempt `number`, with `left` attempts after it: `attempt_number < max_attempts` is
  -- that some are left.
  unfoldable pub attempt_loop : ℕ → ℕ → Notification → World E → Notification × World E
  attempt_loop zero number n w =
      let (a, w₁) = Attempts.create n.id provider number w in
      let (r, w₂) = call w₁ in
      if r.success then succeed a r n w₂ else give_up number r n (record_failure a r w₂)
  attempt_loop (suc left) number n w =
      let (a, w₁) = Attempts.create n.id provider number w in
      let (r, w₂) = call w₁ in
      let w₃ = record_failure a r w₂ in
      let retried = prepare_retry number r n w₃ in
      let rest = attempt_loop left (number + 1) retried.0 retried.1 in
      if r.success then succeed a r n w₂ else if r.is_retryable then rest else give_up number r n w₃
