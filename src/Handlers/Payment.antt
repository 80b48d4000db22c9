-- ===== src/Handlers/Payment.antt =====
-- The handlers of app/events/handlers/payment that only send messages, and the one that sends none.
pub mod Frame
use ushnotice.Common.{String, ◌==◌, ◌<>◌, Option, none, some, if◌then◌else◌}
use ushnotice.Json.{Json, str, num, Fields, field, end, get, put, or_else, truthy}
use ushnotice.Domain.Values.{Recipient, NotificationRequest}
use ushnotice.Events.Envelope.{EventEnvelope}
use ushnotice.Events.Handler.{EventHandler, returned}
use ushnotice.Handlers.Messages.{
  Setup, Step, then_do, notify, sms_of, email_of, text_or_empty, customer_or_user, get_default,
  optional,
}

module _ {E : Type 0} (u : Setup E) where
  -- the request of a message about a payment
  unfoldable pub payment_request :
      EventEnvelope → String → Fields → String → Recipient → NotificationRequest
  payment_request env template context subject r = record {
    event_id = env.event_id;
    recipient = r;
    template_name = template;
    template_context = put context "customer_name" (str r.name);
    subject = subject;
    customer_id = optional (text_or_empty u (get env.body "customer_id"));
    booking_id = optional (text_or_empty u (get env.body "booking_id"));
    correlation_id = env.correlation_id;
  }

  abbrev pub reference : Fields → Json
  reference body = or_else (get body "booking_reference") (or_else (get body "reference") (str ""))

  -- `f"{title} – {ref}" if ref else other`
  abbrev pub subject_with : String → Json → String → String
  subject_with title ref other =
      if truthy ref then title <> " – " <> u.services.str_of ref else other

  -- the keys from the branch's name on
  abbrev visit : Fields → Fields → Fields
  visit body rest = field "branch_name" (or_else (get body "branch_name") (str "USHSPA")) (
      field "appointment_date" (or_else (get body "appointment_date") (str ""))
        (field "appointment_time" (or_else (get body "appointment_time") (str "")) rest))

  unfoldable pub failed_context : Fields → Fields
  failed_context body = field "booking_reference" (reference body) (
      visit body
        (field "support_phone" (get_default body "support_phone" (str "+965 2222 0000")) end))

  unfoldable pub payment_failed : EventEnvelope → Step E
  unfolding then_do notify payment_request failed_context
  payment_failed env =
      let context = failed_context env.body in
      then_do
        (notify u (sms_of u env.body) (payment_request env "booking/payment_failed" context ""))
        (notify u (email_of u env.body) (
          payment_request env "booking/payment_failed" context
            (subject_with "Payment Failed" (reference env.body) "USHSPA Payment Failed")))

  unfoldable pub pending_context : Fields → Fields
  pending_context body = field "booking_reference" (reference body) (
      field "amount" (get body "amount") (
        field "currency" (get_default body "currency" (str "KWD")) (
          field "payment_link"
            (or_else (get body "payment_url") (or_else (get body "payment_link") (str "")))
            (visit body end))))

  -- The SMS is switched off in the code.
  unfoldable pub payment_pending : EventEnvelope → Step E
  unfolding notify payment_request pending_context
  payment_pending env = notify u (email_of u env.body) (
      payment_request env "booking/payment_pending" (pending_context env.body) (
        subject_with "Payment Reminder" (reference env.body)
          "Complete Your USHSPA Booking Payment"))

  unfoldable pub success_context : Fields → Fields
  success_context body = field "booking_reference" (reference body) (
      field "amount" (get body "amount") (
        field "currency" (get_default body "currency" (str "KWD")) (
          field "transaction_id"
            (or_else (get body "transaction_id") (or_else (get body "payment_id") (str "")))
            (visit body
              (field "service_name" (or_else (get body "service_name") (str "Spa Service")) end)))))

  -- with `"total_amount": context["amount"]` after the name
  unfoldable pub receipt_request : EventEnvelope → Recipient → NotificationRequest
  unfolding payment_request success_context
  receipt_request env r =
      let base =
        payment_request env "booking/confirmed_email" (success_context env.body)
          (subject_with "Payment Receipt" (reference env.body) "Your USHSPA Payment Receipt") r in
      record base {
        template_context = put base.template_context "total_amount" (get env.body "amount");
      }

  unfoldable pub payment_success : EventEnvelope → Step E
  unfolding then_do notify payment_request success_context receipt_request
  payment_success env =
      then_do
        (notify u (sms_of u env.body)
          (payment_request env "booking/confirmed" (success_context env.body) ""))
        (notify u (email_of u env.body) (receipt_request env))

-- It only logs.
unfoldable pub payment_link_failed : {E : Type 0} → EventEnvelope → Step E
payment_link_failed env w = (returned, w)
