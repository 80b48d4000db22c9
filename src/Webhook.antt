-- ===== src/Webhook.antt =====
-- `WhatsAppWebhookService` of app/notifications/application/whatsapp_webhook_service.py. A payload
-- is given by the fields that the service reads, a missing or null one as `none`; a payload of
-- another shape raises before anything is read from it, and is not represented.
pub mod Statuses
pub mod Messages
pub mod Payloads
use ushnotice.Common.{
  ℕ, ◌+◌, String, ◌<>◌, ◌==◌, ◌||◌, Bool, true, false, Option, none, some, List, [], ◌∷◌, lower,
  if◌then◌else◌,
}
use ushnotice.Json.{Json}
use ushnotice.Domain.Enums.{NotificationStatus, AttemptStatus}
use ushnotice.Domain.Models.{Notification, NotificationAttempt}
use ushnotice.Store.{World}
use ushnotice.Store.Attempts
use ushnotice.Store.Notifications
use ushnotice.Store.Inbound

pub record ErrorItem : Type 0 where
  pub code : String
  pub message : Option String
  pub title : Option String

pub record StatusItem : Type 0 where
  pub id : Option String
  pub status : Option String
  pub errors : List ErrorItem
  pub raw : Json

pub record MessageItem : Type 0 where
  pub id : Option String
  pub from : Option String
  pub type : String
  pub text_body : Option String
  pub button_text : Option String
  pub interactive_type : Option String
  pub button_reply_title : Option String
  pub list_reply_title : Option String
  pub raw : Json

pub record Change : Type 0 where
  pub field : Option String
  pub phone_number_id : Option String
  pub statuses : List StatusItem
  pub messages : List MessageItem
  pub contacts : List (Option String × Option String)

-- what `process_payload` answers
pub data Summary : Type 0 where
  ignored : Summary
  success : ℕ → ℕ → Summary

-- `x or ""`
abbrev pub text_or_empty : Option String → String
text_or_empty none = ""
text_or_empty (some t) = t

abbrev default_error : String
default_error = "WhatsApp message delivery failed"

abbrev or_text : Option String → String → String
or_text none d = d
or_text (some t) d = if t == "" then d else t

-- the code and the message of the first error
unfoldable pub read_errors : List ErrorItem → Option String × String
read_errors [] = (none, default_error)
read_errors (e ∷ _) = (some e.code, or_text e.message (or_text e.title default_error))

abbrev pub is_read : NotificationStatus → Bool
is_read NotificationStatus.read = true
is_read _ = false

-- the statuses that a "sent" callback may replace
abbrev pub is_unsent : NotificationStatus → Bool
is_unsent NotificationStatus.processing = true
is_unsent NotificationStatus.queued = true
is_unsent NotificationStatus.created = true
is_unsent _ = false

unfoldable pub message_body : MessageItem → Option String
message_body m =
    if m.type == "text"
    then m.text_body
    else if m.type == "button"
    then m.button_text
    else if m.type == "interactive"
    then (if text_or_empty m.interactive_type == "button_reply"
        then m.button_reply_title
        else if text_or_empty m.interactive_type == "list_reply"
        then m.list_reply_title
        else none)
    else none

-- The entry of `contacts_map`: a later contact with the number takes the place of an earlier one,
-- also where it has no name.
contact_entry : List (Option String × Option String) → String → Option (Option String)
contact_entry [] from = none
contact_entry ((wa_id, name) ∷ rest) from =
    let later = contact_entry rest from in
    elim later [ some n ↦ some n | none ↦ if text_or_empty wa_id == from then some name else none ]

-- `contacts.get(from_number)`
unfoldable pub contact_name : List (Option String × Option String) → String → Option String
unfolding contact_entry
contact_name contacts from = elim (contact_entry contacts from) [ some n ↦ n | none ↦ none ]

-- the columns of an inbound message
abbrev new_of :
    MessageItem → List (Option String × Option String) → Option String → Inbound.NewInbound
new_of m contacts phone_number_id = record {
  provider_message_id = text_or_empty m.id;
  from_number = text_or_empty m.from;
  channel = "whatsapp";
  provider = "meta";
  to_number_id = phone_number_id;
  sender_name = contact_name contacts (text_or_empty m.from);
  message_type = m.type;
  body = message_body m;
  payload = some m.raw;
}

module _ {E : Type 0} where
  -- "delivered": only if not already read
  unfoldable pub on_delivered : NotificationAttempt → Notification → World E → World E
  on_delivered a n w = Attempts.set_status a AttemptStatus.success (
      if is_read n.status
      then w
      else (Notifications.update_status n NotificationStatus.delivered
          (some "Meta WhatsApp delivery status: delivered") w).1)

  unfoldable pub on_read : NotificationAttempt → Notification → World E → World E
  on_read a n w =
      Attempts.set_status a AttemptStatus.success
        (Notifications.update_status n NotificationStatus.read
          (some "Meta WhatsApp delivery status: read") w).1

  unfoldable pub on_failed : StatusItem → NotificationAttempt → Notification → World E → World E
  unfolding read_errors
  on_failed item a n w =
      let (code, message) = read_errors item.errors in
      let w' = (Attempts.mark_failed a code (some message) (some item.raw) false w).1 in
      (Notifications.update_status n NotificationStatus.failed
        (some ("Meta WhatsApp delivery failed: " <> message)) w').1

  unfoldable pub on_sent : Notification → World E → World E
  on_sent n w =
      if is_unsent n.status
      then (Notifications.update_status n NotificationStatus.sent
          (some "Meta WhatsApp delivery status: sent") w).1
      else w

  -- the branches on the status' name
  unfoldable pub apply_status :
      String → StatusItem → NotificationAttempt → Notification → World E → Bool × World E
  apply_status name item a n w =
      if name == "delivered"
      then (true, on_delivered a n w)
      else if name == "read"
      then (true, on_read a n w)
      else if name == "failed"
      then (true, on_failed item a n w)
      else if name == "sent"
      then (true, on_sent n w)
      else (false, w)

  -- `_process_status`
  unfoldable pub process_status : StatusItem → World E → Bool × World E
  process_status item w =
      let message_id = text_or_empty item.id in
      let status_name = lower (text_or_empty item.status) in
      if message_id == "" || status_name == ""
      then (false, w)
      else elim (Attempts.get_by_provider_message_id w.db message_id) [
        | none ↦ (false, w)
        | some a ↦ elim (Notifications.get_by_id w.db a.notification_id) [
          | none ↦ (false, w)
          | some n ↦ apply_status status_name item a n w
        ]
      ]

  -- `_process_inbound_message`
  unfoldable pub process_inbound_message :
      MessageItem → List (Option String × Option String) → Option String → World E → Bool × World E
  unfolding message_body contact_name
  process_inbound_message m contacts phone_number_id w =
      let msg_id = text_or_empty m.id in
      let from_number = text_or_empty m.from in
      if msg_id == "" || from_number == ""
      then (false, w)
      else (true, (Inbound.create (new_of m contacts phone_number_id) w).1)

  -- the loop over the statuses of a change, which counts the updates
  unfoldable pub process_statuses : List StatusItem → ℕ × World E → ℕ × World E
  process_statuses [] r = r
  process_statuses (item ∷ items) (n, w) =
      let (updated, w') = process_status item w in
      process_statuses items ((if updated then n + 1 else n), w')

  unfoldable pub process_messages :
      List (Option String × Option String)
      → Option String
      → List MessageItem
      → ℕ × World E
      → ℕ × World E
  process_messages contacts phone [] r = r
  process_messages contacts phone (m ∷ ms) (n, w) =
      let (created, w') = process_inbound_message m contacts phone w in
      process_messages contacts phone ms ((if created then n + 1 else n), w')

  -- the loop over the changes: statuses first, then messages; other fields are skipped
  unfoldable pub process_changes : List Change → ℕ × ℕ × World E → ℕ × ℕ × World E
  unfolding process_statuses process_messages
  process_changes [] r = r
  process_changes (c ∷ cs) (statuses, messages, w) =
      let (statuses', w') = process_statuses c.statuses (statuses, w) in
      let (messages', w'') =
        process_messages c.contacts c.phone_number_id c.messages (messages, w') in
      process_changes cs (
        if text_or_empty c.field == "messages"
        then (statuses', messages', w'')
        else (statuses, messages, w))

  unfoldable pub process_entries : List (List Change) → ℕ × ℕ × World E → ℕ × ℕ × World E
  process_entries [] r = r
  process_entries (changes ∷ entries) r = process_entries entries (process_changes changes r)

  -- `process_payload`: the type of the object and the changes of each entry
  unfoldable pub process_payload : Option String → List (List Change) → World E → Summary × World E
  unfolding process_entries
  process_payload object_type entries w =
      if text_or_empty object_type == "whatsapp_business_account"
      then (let (statuses, messages, w') = process_entries entries (0, 0, w) in
          (success statuses messages, w'))
      else (ignored, w)
