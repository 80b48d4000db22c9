-- ===== src/Notify/Service.antt =====
-- `NotificationService` of app/notifications/application/notification_service.py.
pub mod Laws
pub mod Key
pub mod Once
pub mod Frame
use ushnotice.Common.{
  ◌+◌, String, ◌<>◌, ◌==◌, ◌&&◌, ◌||◌, not, starts_with, Bool, true, false, Option, none, some,
  List, [], if◌then◌else◌,
}
use ushnotice.Json.{get, has_key}
use ushnotice.Domain.Enums.{
  NotificationStatus, NotificationChannel, sms, whatsapp, email, channel_value,
}
use ushnotice.Domain.Models.{Notification}
use ushnotice.Domain.Values.{NotificationRequest}
use ushnotice.Store.{World}
use ushnotice.Store.Notifications
use ushnotice.Notify.Renderer.{Rendered, rendered, render_error, render, error_text}
use ushnotice.Notify.Settings.{Settings, is_email_skipped}
use ushnotice.Notify.Services.{Services}
use ushnotice.Notify.Attempting.{attempt_loop}

-- `template.startswith(_OBJECT_SCOPED_PREFIXES)`
unfoldable pub is_object_scoped : String → Bool
is_object_scoped template = starts_with template "voucher/" || starts_with template "gifts/"

-- the booking id where it is given and the template is scoped to an object
unfoldable pub scope : NotificationRequest → String
unfolding is_object_scoped
scope req = elim req.booking_id [
  | none ↦ req.event_id
  | some b ↦ if not (b == "") && is_object_scoped req.template_name then b else req.event_id
]

unfoldable pub dedup_key : NotificationRequest → String
unfolding scope channel_value
dedup_key req =
    "notif_sent:"
    <> req.template_name
    <> ":"
    <> channel_value req.recipient.channel
    <> ":"
    <> req.recipient.address
    <> ":"
    <> scope req

-- How `send` ends: a record that is not persisted (the request's, with a status), a row, or the
-- integrity error that the insertion raised.
pub data Sent : Type 0 where
  unpersisted : NotificationRequest → NotificationStatus → Sent
  persisted : Notification → Sent
  integrity_error : Sent

abbrev pub is_email : NotificationChannel → Bool
is_email email = true
is_email _ = false

-- the statuses that keep the claim
abbrev pub is_out : NotificationStatus → Bool
is_out NotificationStatus.sent = true
is_out NotificationStatus.delivered = true
is_out _ = false

abbrev optional : String → Option String
optional t = if t == "" then none else some t

module _ {E : Type 0} (s : Services E) (settings : Settings) where
  unfoldable pub provider_name : NotificationChannel → String
  unfolding is_email_skipped
  provider_name sms = settings.sms_provider
  provider_name whatsapp = settings.whatsapp_provider
  provider_name email = if is_email_skipped settings then "stub" else settings.email_provider

  abbrev is_raw_template : String → Bool
  is_raw_template t = t == "raw" || t == "direct" || t == "sms/direct"

  unfoldable pub render_body : NotificationRequest → Rendered
  render_body req =
      if is_raw_template req.template_name && has_key req.template_context "raw_body"
      then rendered (s.str_of (get req.template_context "raw_body"))
      else render s.jinja s.str_of s.strip s.repr req.template_name req.recipient.language
          req.template_context (is_email req.recipient.channel)

  unfoldable pub new_notification : NotificationRequest → Notifications.NewNotification
  unfolding provider_name channel_value
  new_notification req = record {
    event_id = req.event_id;
    channel = channel_value req.recipient.channel;
    recipient = req.recipient.address;
    recipient_name = optional req.recipient.name;
    template_name = some req.template_name;
    subject = optional req.subject;
    customer_id = req.customer_id;
    booking_id = req.booking_id;
    correlation_id = req.correlation_id;
    provider = some (provider_name req.recipient.channel);
  }

  -- After the row is there: rendering, and the attempts.
  unfoldable pub dispatch :
      NotificationRequest → Rendered → Notification × World E → Notification × World E
  unfolding provider_name
  dispatch req (render_error template cause) (n, w) =
      Notifications.update_status n NotificationStatus.failed
        (some ("Template rendering failed: " <> error_text s.repr template cause)) w
  dispatch req (rendered body) (n, w) =
      attempt_loop s req (provider_name req.recipient.channel) body
        settings.notification_max_retries 1 n w

  -- after `notification_repo.create`; `none` is its integrity error
  unfoldable pub after_create :
      NotificationRequest → Option (Notification × World E) → Option (Notification × World E)
  unfolding render_body dispatch
  after_create req none = none
  after_create req (some (n, w)) = some (
      dispatch req (render_body req) (
        Notifications.update_status n NotificationStatus.processing (some "Dispatching to provider")
          w))

  unfoldable pub send_impl : NotificationRequest → World E → Option (Notification × World E)
  unfolding new_notification after_create
  send_impl req w = after_create req (Notifications.create (new_notification req) w)

  -- `_claim`: true, false, or none where Redis cannot be reached
  unfoldable pub claim : String → World E → Option Bool × World E
  claim key w = let (r, env) = s.set_nx key w.env in (r, record w { env = env })

  unfoldable pub release : String → World E → World E
  release key w = record w { env = s.delete key w.env }

  -- the end of `send`: a claim is given back unless the message went out
  unfoldable pub conclude :
      String → Bool → World E → Option (Notification × World E) → Sent × World E
  unfolding release
  conclude key claimed before none =
      (integrity_error, if claimed then release key before else before)
  conclude key claimed before (some (n, w)) =
      (persisted n, if claimed && not (is_out n.status) then release key w else w)

  -- after the claim
  unfoldable pub continue_send : NotificationRequest → Option Bool × World E → Sent × World E
  continue_send req (some false, w) = (unpersisted req NotificationStatus.sent, w)
  continue_send req (some true, w) = conclude (dedup_key req) true w (send_impl req w)
  continue_send req (none, w) = conclude (dedup_key req) false w (send_impl req w)

  unfoldable pub send : NotificationRequest → World E → Sent × World E
  unfolding continue_send conclude claim is_email_skipped
  send req w =
      if is_email req.recipient.channel && is_email_skipped settings
      then (unpersisted req NotificationStatus.cancelled, w)
      else continue_send req (claim (dedup_key req) w)
