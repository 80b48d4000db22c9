-- ===== src/Tests/Sending.antt =====
-- Messages that are sent, that a provider refuses, and that are asked for twice.
use ushnotice.Common
use ushnotice.Common.{
  ℕ, suc, ◌+◌, ◌≡◌, ◌≢◌, ◌↔◌, refl, String, ◌==◌, eq_iff, Bool, true, false, ◌&&◌, Bool-cases, inl,
  inr, ◌||◌, arith, some, none, List, [], ◌∷◌, if◌then◌else◌, any, length,
}
use ushnotice.Json.{null, str, field, end}
use ushnotice.Domain.Enums.{NotificationStatus, sms}
use ushnotice.Domain.Models.{Notification}
use ushnotice.Domain.Values.{NotificationRequest, delivery_ok}
use ushnotice.Store.{World, empty_db}
use ushnotice.Store.Notifications
use ushnotice.Notify.Settings.{is_email_skipped}
use ushnotice.Notify.Attempting.{attempt_loop}
use ushnotice.Notify.Attempting.Laws.{Concluded, attempt_loop-Concluded}
use ushnotice.Notify.Attempting.Bounds.{WithinBounds, attempt_loop-WithinBounds}
use ushnotice.Notify.Service.{
  is_object_scoped, scope, dedup_key, Sent, persisted, unpersisted, is_out, is_email, send,
}
use ushnotice.Notify.Service.Laws.{Claims, send-Claims, send_once}
use ushnotice.Notify.Service.Frame.{core, core-send}
use ushnotice.Notify.Service.Key.{dedup_key-eq_iff}
use ushnotice.Notify.Service.Once.{send_once_object}
use ushnotice.Tests.Samples.{event}
use ushnotice.Tests.Redis.{Keys, services, services-KeepsKeys, settings}

-- the gift's message of the event
abbrev request : String → NotificationRequest
request event_id = record {
  event_id = event_id;
  recipient = record { channel = sms; address = "96550000000"; name = ""; language = "en" };
  template_name = "gifts/claimed";
  template_context = end;
  subject = "";
  customer_id = none;
  booking_id = some "g-1";
  correlation_id = none;
}

-- a text that stands in the request itself
abbrev raw_request : String → NotificationRequest
raw_request event_id = record (request event_id) {
  template_name = "raw";
  template_context = field "raw_body" (str "hello") end;
}

-- the event's row is there
abbrev before : World Keys
before = record {
  db = record empty_db { events = event ∷ [] };
  saved = record empty_db { events = event ∷ [] };
  uuids = λ n. "u-1";
  env = [];
}

-- the row of the message that went out
abbrev sent_row : Notification
sent_row = record {
  id = "u-1";
  event_id = "7f3e";
  customer_id = none;
  booking_id = some "g-1";
  channel = "sms";
  recipient = "96550000000";
  recipient_name = none;
  template_name = some "raw";
  subject = none;
  status = NotificationStatus.sent;
  provider = some "kwtsms";
  retry_count = 0;
  correlation_id = none;
}

abbrev raw_key : String
raw_key = "notif_sent:raw:sms:96550000000:7f3e"

raw_keyed : dedup_key (raw_request "7f3e") ≡ raw_key
unfolding dedup_key
raw_keyed = refl

first_sent : (send services settings (raw_request "7f3e") before).0 ≡ persisted sent_row
unfolding send services any ushnotice.Notify.Service.send_impl Notifications.create
    ushnotice.Store.Events.get_by_id Common.find_first ushnotice.Store.Processings.resolve_event_id
    ushnotice.Json.has_key attempt_loop ushnotice.Notify.Attempting.call delivery_ok
    ushnotice.Notify.Attempting.succeed Notifications.update_status Notifications.insert
first_sent = refl

-- the world afterwards, rolled back by the router
abbrev rolled_back : World Keys
rolled_back = record before { env = (send services settings (raw_request "7f3e") before).1.env }

not_skipped : is_email sms && is_email_skipped settings ≡ false
not_skipped = refl

send_once_example :
    send services settings (raw_request "7f3e") rolled_back
    ≡ (unpersisted (raw_request "7f3e") NotificationStatus.sent, rolled_back)
send_once_example =
    send_once services settings services-KeepsKeys (raw_request "7f3e") (raw_request "7f3e") before
      rolled_back sent_row first_sent refl refl refl not_skipped

send-Claims_example :
    Claims services settings services-KeepsKeys
      (dedup_key (raw_request "7f3e"))
      (send services settings (raw_request "7f3e") before)
send-Claims_example = send-Claims services settings services-KeepsKeys (raw_request "7f3e") before

dedup_key-eq_iff_example :
    (dedup_key (request "7f3e") ≡ dedup_key (request "90aa"))
    ↔ (scope (request "7f3e") ≡ scope (request "90aa"))
dedup_key-eq_iff_example = dedup_key-eq_iff (request "7f3e") (request "90aa") refl refl refl

gifts_scoped : is_object_scoped "gifts/claimed" ≡ true
unfolding is_object_scoped
gifts_scoped = refl

gift_named : ◌≢◌ {A = String} "g-1" ""
gift_named e = cc e

-- the gift's message with its text, which goes out without a template
abbrev gift_message : String → NotificationRequest
gift_message event_id = record (request event_id) {
  template_context = field "message_body" (str "hello") end;
}

abbrev gift_row : Notification
gift_row = record sent_row { template_name = some "gifts/claimed" }

gift_sent : (send services settings (gift_message "7f3e") before).0 ≡ persisted gift_row
unfolding send services any ushnotice.Notify.Service.send_impl Notifications.create
    ushnotice.Store.Events.get_by_id Common.find_first ushnotice.Store.Processings.resolve_event_id
    ushnotice.Notify.Renderer.render ushnotice.Notify.Renderer.strip_suffix ushnotice.Json.has_key
    ushnotice.Json.truthy ushnotice.Json.get attempt_loop ushnotice.Notify.Attempting.call
    delivery_ok ushnotice.Notify.Attempting.succeed Notifications.update_status Notifications.insert
gift_sent = refl

abbrev after_gift : World Keys
after_gift = record before { env = (send services settings (gift_message "7f3e") before).1.env }

send_once_object_example :
    send services settings (gift_message "90aa") after_gift
    ≡ (unpersisted (gift_message "90aa") NotificationStatus.sent, after_gift)
send_once_object_example =
    send_once_object services settings services-KeepsKeys (gift_message "7f3e")
      (gift_message "90aa") "g-1" before after_gift gift_row gifts_scoped gift_named refl refl refl
      refl refl not_skipped gift_sent refl refl

attempt_loop-Concluded_example :
    Concluded services
      (raw_request "7f3e")
      "kwtsms"
      "busy"
      3
      "u-1"
      (attempt_loop services (raw_request "7f3e") "kwtsms" "busy" 2 1 sent_row before)
attempt_loop-Concluded_example =
    attempt_loop-Concluded services (raw_request "7f3e") "kwtsms" "busy" 2 1 sent_row before

attempt_loop-WithinBounds_example :
    WithinBounds services
      (raw_request "7f3e")
      "kwtsms"
      "busy"
      2
      0
      0
      (attempt_loop services (raw_request "7f3e") "kwtsms" "busy" 2 1 sent_row before)
attempt_loop-WithinBounds_example =
    attempt_loop-WithinBounds services (raw_request "7f3e") "kwtsms" "busy" 2 1 sent_row before

-- A provider that is busy is tried three times.
busy_retries :
    (attempt_loop services (raw_request "7f3e") "kwtsms" "busy" 2 1 sent_row before).0.retry_count
    ≡ 2
unfolding attempt_loop services ushnotice.Notify.Attempting.call ushnotice.Notify.Attempting.give_up
    Notifications.update_status ushnotice.Notify.Attempting.prepare_retry
    Notifications.increment_retry
busy_retries = refl

core-send_example : core (send services settings (raw_request "7f3e") before).1 ≡ core before
core-send_example = core-send services settings (raw_request "7f3e") before
