-- ===== src/Tests/Callbacks.antt =====
-- A WhatsApp message that Meta delivers twice, and a status that comes after the message was read.
use ushnotice.Common
use ushnotice.Common.{◌≡◌, ◌≢◌, refl, String, true, some, none, List, [], ◌∷◌, lower}
use ushnotice.Json.{null}
use ushnotice.Domain.Enums.{NotificationStatus, AttemptStatus}
use ushnotice.Domain.Models.{Notification, NotificationAttempt}
use ushnotice.Store.{World, empty_db}
use ushnotice.Store.Attempts
use ushnotice.Store.Notifications
use ushnotice.Webhook.{
  MessageItem, StatusItem, Change, process_inbound_message, process_status, process_payload,
}
use ushnotice.Webhook.Payloads.{process_payload-IsRead}
use ushnotice.Webhook.Messages.{process_inbound_message_twice}
use ushnotice.Webhook.Statuses.{IsRead}
use ushnotice.Tests.Samples.{Log, start}

abbrev message : MessageItem
message = record {
  id = some "wamid.7";
  from = some "96550000000";
  type = "text";
  text_body = some "thanks";
  button_text = none;
  interactive_type = none;
  button_reply_title = none;
  list_reply_title = none;
  raw = null;
}

message_taken : (process_inbound_message message [] none start).0 ≡ true
unfolding process_inbound_message
message_taken = refl

process_inbound_message_twice_example :
    (process_inbound_message message [] none (process_inbound_message message [] none start).1).1
    ≡ (process_inbound_message message [] none start).1
process_inbound_message_twice_example =
    process_inbound_message_twice message message [] [] none none start message_taken refl

abbrev read_row : Notification
read_row = record {
  id = "n-1";
  event_id = "7f3e";
  customer_id = none;
  booking_id = none;
  channel = "whatsapp";
  recipient = "96550000000";
  recipient_name = none;
  template_name = some "gifts/claimed";
  subject = none;
  status = NotificationStatus.read;
  provider = some "meta";
  retry_count = 0;
  correlation_id = none;
}

abbrev attempt : NotificationAttempt
attempt = record {
  id = "a-1";
  notification_id = "n-1";
  provider = "meta";
  attempt_number = 1;
  status = AttemptStatus.success;
  provider_message_id = some "wamid.9";
  provider_response = none;
  error_code = none;
  error_message = none;
  is_retryable = Common.false;
}

abbrev read_world : World Log
read_world = record start {
  db = record empty_db { notifications = read_row ∷ []; attempts = attempt ∷ [] };
}

-- "delivered", after the message was read
abbrev late : StatusItem
late = record { id = some "wamid.9"; status = some "Delivered"; errors = []; raw = null }

late_delivered : lower "Delivered" ≢ "failed"
unfolding lower
late_delivered e = cc e

row_found : Notifications.get_by_id read_world.db "n-1" ≡ some read_row
unfolding Notifications.get_by_id Common.find_first
row_found = refl

-- the callback finds its message
late_counted : (process_status late read_world).0 ≡ true
unfolding process_status lower Attempts.get_by_provider_message_id Common.find_first
    Notifications.get_by_id ushnotice.Webhook.apply_status
late_counted = refl

-- A payload with the late status, and a message.
abbrev change : Change
change = record {
  field = some "messages";
  phone_number_id = none;
  statuses = late ∷ [];
  messages = message ∷ [];
  contacts = [];
}

process_payload-IsRead_example :
    IsRead
      (process_payload (some "whatsapp_business_account") ((change ∷ []) ∷ []) read_world).1.db
      "n-1"
process_payload-IsRead_example =
    process_payload-IsRead "n-1" (some "whatsapp_business_account") ((change ∷ []) ∷ []) read_world
      (((late_delivered, tt), tt), tt) (record { row = read_row; found = row_found; status = refl })
