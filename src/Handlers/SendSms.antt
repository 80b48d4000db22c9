-- ===== src/Handlers/SendSms.antt =====
-- `SendSMSHandler` of app/events/handlers/sms/send_sms.py. Its pause between two messages and its
-- counts, which it only logs, are left out. The event's row is there when the router calls a handler,
-- so that the insertion of a notification does not fail.
pub mod Laws
use ushnotice.Common.{
  String, ◌==◌, ◌&&◌, not, Bool, true, false, Option, none, some, List, [], ◌∷◌, ◌++◌, map, any,
  lower, split_on, if◌then◌else◌,
}
use ushnotice.Json.{Json, str, arr, Items, nil, cons, Fields, end, field, get, truthy, or_else}
use ushnotice.Domain.Enums.{NotificationChannel, sms}
use ushnotice.Domain.Values.{Recipient, NotificationRequest, recipient}
use ushnotice.Store.{World}
use ushnotice.Events.Envelope.{EventEnvelope}
use ushnotice.Events.Handler.{EventHandler, Outcome, returned, raised}
use ushnotice.Notify.Settings.{Settings}
use ushnotice.Notify.Services.{Services}
use ushnotice.Notify.Service.{send}

unfoldable pub items_of : Items → List Json
items_of nil = []
items_of (cons v rest) = v ∷ items_of rest

-- a text in a list of values
abbrev is_str : String → Json → Bool
is_str t (str u) = u == t
is_str t _ = false

-- `attribute_error` is the message of the exception that `v.strip` raises where `v` is no text.
module _ {E : Type 0} (s : Services E) (settings : Settings) (attribute_error : Json → String) where
  -- the first of the fields that has a content
  abbrev raw_content : Fields → Json
  raw_content body =
      or_else (get body "content")
        (or_else (get body "message") (or_else (get body "sms_content") (str "")))

  -- `[n.strip() for n in numbers if n.strip()]`
  unfoldable pub stripped : List String → List String
  stripped [] = []
  stripped (n ∷ ns) = let rest = stripped ns in if s.strip n == "" then rest else s.strip n ∷ rest

  abbrev listed : Json → List Json
  listed (str t) = map str (stripped (split_on b',' t))
  listed (arr items) = items_of items
  listed _ = []

  abbrev raw_numbers : Json → List Json
  raw_numbers v = if truthy v then listed v else []

  -- the numbers of the event, with the single one after the others where it is not among them
  unfoldable pub phone_numbers : Fields → List String
  unfolding stripped items_of
  phone_numbers body =
      let raw = raw_numbers (get body "phone_numbers") in
      let single = get body "phone_number" in
      let number = s.strip (s.str_of single) in
      stripped (
        map s.str_of (
          if truthy single && not (any (is_str number) raw) then raw ++ (str number ∷ []) else raw))

  unfoldable pub language_of : Fields → String
  language_of body = lower (s.strip (s.str_of (or_else (get body "language") (str "ar"))))

  abbrev text_or_empty : Json → String
  text_or_empty v = if truthy v then s.str_of v else ""

  -- the request for one recipient
  unfoldable pub request : EventEnvelope → String → Recipient → NotificationRequest
  request env content r = record {
    event_id = env.event_id;
    recipient = r;
    template_name = "sms/direct";
    template_context =
        field "raw_body" (str content)
          (field "message" (str content) (field "content" (str content) end));
    subject = "";
    customer_id = some (text_or_empty (get env.body "customer_id"));
    booking_id = none;
    correlation_id = env.correlation_id;
  }

  -- the message to a recipient; an exception is only logged
  send_request : EventEnvelope → String → Option Recipient → World E → World E
  send_request env content none w = w
  send_request env content (some r) w = (send s settings (request env content r) w).1

  -- the loop over the numbers
  unfoldable pub send_all : EventEnvelope → String → List String → World E → World E
  unfolding send_request recipient
  send_all env content [] w = w
  send_all env content (phone ∷ phones) w =
      send_all env content phones
        (send_request env content (recipient s.strip sms phone "" (language_of env.body)) w)

  -- After the content is read: without a content or a number nothing is sent.
  unfoldable pub send_content : EventEnvelope → Json → World E → Outcome × World E
  unfolding send_all phone_numbers
  send_content env (str t) w =
      if s.strip t == ""
      then (returned, w)
      else (returned, send_all env (s.strip t) (phone_numbers env.body) w)
  send_content env v w = (raised (attribute_error v), w)

  unfoldable pub handle : EventEnvelope → World E → Outcome × World E
  unfolding send_content
  handle env w = send_content env (raw_content env.body) w

  unfoldable pub handler : EventHandler E
  unfolding handle
  handler = record { event_type = "sms.send"; class_name = "SendSMSHandler"; handle = handle }
