-- ===== src/Notify/Service/Once.antt =====
-- A message about an object that two events ask for.
use ushnotice.Common.{◌≡◌, ◌≢◌, String, ◌&&◌, true, false, some}
use ushnotice.Domain.Enums.{NotificationStatus}
use ushnotice.Domain.Models.{Notification}
use ushnotice.Domain.Values.{NotificationRequest}
use ushnotice.Store.{World}
use ushnotice.Notify.Settings.{Settings, is_email_skipped}
use ushnotice.Notify.Services.{Services, KeepsKeys}
use ushnotice.Notify.Service.{is_object_scoped, is_email, send, unpersisted, persisted}
use ushnotice.Notify.Service.Key.{dedup_key-eq_iff, scope_object}
use ushnotice.Notify.Service.Laws.{send_once}

module _ {E : Type 0} (s : Services E) (settings : Settings) (keys : KeepsKeys s)
    (req again : NotificationRequest) (object : String) where
  -- With a Redis that keeps its keys and providers that do not touch them, once a send of a
  -- template scoped to objects, for a non-empty object, ended with a row in status SENT, a send of
  -- the same template to the same address on the same channel for the same object, whatever its
  -- event is, that finds the world outside as the first left it, and for which email is not
  -- switched off, answers SENT and changes nothing.
  pub send_once_object :
      (w later : World E) (n : Notification)
      → is_object_scoped req.template_name ≡ true
      → object ≢ ""
      → req.booking_id ≡ some object
      → again.booking_id ≡ some object
      → again.template_name ≡ req.template_name
      → again.recipient.channel ≡ req.recipient.channel
      → again.recipient.address ≡ req.recipient.address
      → is_email again.recipient.channel && is_email_skipped settings ≡ false
      → (send s settings req w).0 ≡ persisted n
      → n.status ≡ NotificationStatus.sent
      → later.env ≡ (send s settings req w).1.env
      → send s settings again later ≡ (unpersisted again NotificationStatus.sent, later)
  send_once_object w later n scoped named p q template channel address go row out env =
      send_once s settings keys req again w later n row out env
        ((dedup_key-eq_iff again req template channel address).1
          (scope_object again req object q p named (rw template scoped) scoped))
        go
