-- ===== src/Handlers/Messages.antt =====
-- What the handlers of app/events/handlers that only send messages are made of: a step sends the
-- message to a recipient that the payload names, and the steps follow one another until one raises.
-- `integrity_text` is the message of the exception of a notification that could not be inserted.
pub mod Frame
use ushnotice.Common.{String, ◌==◌, Bool, true, false, Option, none, some, if◌then◌else◌}
use ushnotice.Json.{Json, Fields, get, has_key, truthy, or_else, str}
use ushnotice.Domain.Values.{Recipient, NotificationRequest}
use ushnotice.Store.{World}
use ushnotice.Events.Envelope.{EventEnvelope}
use ushnotice.Events.Handler.{Outcome, returned, raised}
use ushnotice.Notify.Settings.{Settings}
use ushnotice.Notify.Services.{Services}
use ushnotice.Notify.Service.{Sent, integrity_error, send}
use ushnotice.Notify.Resolver.{
  Resolved, nobody, somebody, value_error, resolve_sms_recipient, resolve_email_recipient,
  resolve_whatsapp_recipient,
}

-- `d.get(key, default)`
unfoldable pub get_default : Fields → String → Json → Json
get_default body key default = if has_key body key then get body key else default

-- `t or None`
abbrev pub optional : String → Option String
optional t = if t == "" then none else some t

abbrev pub Step : Type 0 → Type 0
Step E = World E → Outcome × World E

module _ {E : Type 0} where
  -- the next step, unless the one before raised
  unfoldable pub continue_with : Outcome × World E → Step E → Outcome × World E
  continue_with (returned, w) next = next w
  continue_with (raised message, w) next = (raised message, w)

  unfoldable pub then_do : Step E → Step E → Step E
  unfolding continue_with
  then_do step next w = continue_with (step w) next

-- What a handler of messages is made with.
pub record Setup (E : Type 0) : Type 0 where
  pub services : Services E
  pub settings : Settings
  pub default_language : String
  pub integrity_text : String

module _ {E : Type 0} (u : Setup E) where
  -- `await service.send(request)`, of which only the exception is used
  unfoldable pub sent_outcome : Sent × World E → Outcome × World E
  sent_outcome (integrity_error, w) = (raised u.integrity_text, w)
  sent_outcome (_, w) = (returned, w)

  -- a message to the recipient, if there is one
  unfoldable pub notify : Resolved → (Recipient → NotificationRequest) → Step E
  unfolding sent_outcome
  notify nobody make w = (returned, w)
  notify value_error make w = (raised "Recipient address must not be empty.", w)
  notify (somebody r) make w = sent_outcome (send u.services u.settings (make r) w)

  abbrev pub sms_of : Fields → Resolved
  sms_of body =
      resolve_sms_recipient u.services.strip u.services.str_of body none u.default_language

  abbrev pub email_of : Fields → Resolved
  email_of body =
      resolve_email_recipient u.services.strip u.services.str_of u.settings body none
        u.default_language

  abbrev pub whatsapp_of : Fields → Resolved
  whatsapp_of body =
      resolve_whatsapp_recipient u.services.strip u.services.str_of body none u.default_language

  -- `str(v or "")`
  abbrev pub text_or_empty : Json → String
  text_or_empty v = if truthy v then u.services.str_of v else ""

  -- `str(data.get("customer_id") or data.get("user_id") or "")`
  abbrev pub customer_or_user : Fields → String
  customer_or_user body = text_or_empty (or_else (get body "customer_id") (get body "user_id"))
