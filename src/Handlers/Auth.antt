-- ===== src/Handlers/Auth.antt =====
-- The handlers of app/events/handlers/auth that only send messages, and the one that sends none.
pub mod Frame
use ushnotice.Common.{String, ◌==◌, ◌<>◌, Option, none, some, false, if◌then◌else◌}
use ushnotice.Json.{Json, str, num, Fields, field, end, get, put, or_else, truthy}
use ushnotice.Domain.Values.{Recipient, NotificationRequest}
use ushnotice.Events.Envelope.{EventEnvelope}
use ushnotice.Events.Handler.{EventHandler, returned}
use ushnotice.Handlers.Messages.{
  Setup, Step, then_do, notify, sms_of, email_of, text_or_empty, customer_or_user, get_default,
  optional,
}

module _ {E : Type 0} (u : Setup E) where
  -- the request of a message about an account
  unfoldable pub account_request :
      EventEnvelope → String → Fields → String → Recipient → NotificationRequest
  account_request env template context subject r = record {
    event_id = env.event_id;
    recipient = r;
    template_name = template;
    template_context = put context "customer_name" (str r.name);
    subject = subject;
    customer_id = some (customer_or_user u env.body);
    booking_id = none;
    correlation_id = env.correlation_id;
  }

  -- an SMS, and then an email, each if there is a recipient for it
  abbrev by_sms_and_email : EventEnvelope → String → Fields → String → Step E
  by_sms_and_email env template context subject =
      then_do (notify u (sms_of u env.body) (account_request env template context ""))
        (notify u (email_of u env.body) (account_request env template context subject))

  abbrev otp_of : Fields → Json
  otp_of body = or_else (get body "otp") (or_else (get body "verification_code") (str ""))

  unfoldable pub user_registered : EventEnvelope → Step E
  unfolding then_do notify account_request
  user_registered env =
      let context =
        field "otp" (otp_of env.body)
          (field "expiry_minutes" (get_default env.body "expiry_minutes" (num false "5")) end) in
      by_sms_and_email env "user/otp" context "Welcome to USHSPA – Verification Code"

  unfoldable pub user_verified : EventEnvelope → Step E
  unfolding then_do notify account_request
  user_verified env =
      by_sms_and_email env "user/verified" end "Welcome to USHSPA – Account Verified"

  unfoldable pub password_reset : EventEnvelope → Step E
  unfolding then_do notify account_request
  password_reset env =
      let context = field "otp" (or_else (get env.body "otp") (get env.body "reset_code")) (
        field "reset_link" (or_else (get env.body "reset_link") (get env.body "url"))
          (field "expiry_minutes" (get_default env.body "expiry_minutes" (num false "15")) end)) in
      by_sms_and_email env "user/password_reset" context "Reset Your USHSPA Password"

  unfoldable pub password_changed : EventEnvelope → Step E
  unfolding then_do notify account_request
  password_changed env =
      by_sms_and_email env "user/password_changed" end "Security Alert: USHSPA Password Changed"

  unfoldable pub email_verification : EventEnvelope → Step E
  unfolding notify account_request
  email_verification env =
      let context =
        field "otp" (otp_of env.body)
          (field "expiry_minutes" (get_default env.body "expiry_minutes" (num false "10")) end) in
      notify u (email_of u env.body)
        (account_request env "user/email_verify" context "Verify your USHSPA email address")

-- It only logs.
unfoldable pub customer_delete : {E : Type 0} → EventEnvelope → Step E
customer_delete env w = (returned, w)

-- `CustomerNewCreatedHandler.handle` and that of its subclass, which only log; `_legacy_handle` has no
-- caller.
unfoldable pub customer_new_created : {E : Type 0} → EventEnvelope → Step E
customer_new_created env w = (returned, w)
