-- ===== src/Store/Notifications.antt =====
-- `NotificationRepository`
use ushnotice.Common.{
  ◌+◌, ltb, String, ◌==◌, ◌&&◌, Bool, true, false, starts_with, Option, none, some, List, [], ◌∷◌,
  find_first, any, count_where, update_where,
}
use ushnotice.Domain.Enums.{NotificationStatus}
use ushnotice.Domain.Models.{Notification, NotificationStatusHistory}
use ushnotice.Store.{Db, World, uuid4, on_db}
use ushnotice.Store.Events.{get_by_id as event_by_id}
use ushnotice.Store.Processings.{resolve_event_id}

pub record NewNotification : Type 0 where
  pub event_id : String
  pub channel : String
  pub recipient : String
  pub recipient_name : Option String
  pub template_name : Option String
  pub subject : Option String
  pub customer_id : Option String
  pub booking_id : Option String
  pub correlation_id : Option String
  pub provider : Option String

unfoldable pub get_by_id : Db → String → Option Notification
get_by_id db pk = find_first (λ n. n.id == pk) db.notifications

abbrev row_of : NewNotification → String → String → Notification
row_of n pk event_id = record {
  id = pk;
  event_id = event_id;
  customer_id = n.customer_id;
  booking_id = n.booking_id;
  channel = n.channel;
  recipient = n.recipient;
  recipient_name = n.recipient_name;
  template_name = n.template_name;
  subject = n.subject;
  status = NotificationStatus.created;
  provider = n.provider;
  retry_count = 0;
  correlation_id = n.correlation_id;
}

-- flush of a changed object: its row becomes the object
abbrev pub write : Notification → Db → Db
write n db = record db {
  notifications = update_where (λ m. m.id == n.id) (λ _. n) db.notifications;
}

module _ {E : Type 0} where
  unfoldable pub add_status_history :
      Notification
      → Option NotificationStatus
      → NotificationStatus
      → Option String
      → World E
      → World E
  unfolding uuid4
  add_status_history n from_status to_status reason w =
      let (pk, w') = uuid4 w in
      let h : NotificationStatusHistory = record {
        id = pk;
        notification_id = n.id;
        from_status = from_status;
        to_status = to_status;
        reason = reason;
      } in
      on_db (λ db. record db { history = h ∷ db.history }) w'

  -- the row and its first history entry
  unfoldable pub insert : NewNotification → String → World E → Notification × World E
  unfolding uuid4
  insert n event_id w =
      let (pk, w') = uuid4 w in
      let row = row_of n pk event_id in
      (
        row,
        add_status_history row none NotificationStatus.created none
            (on_db (λ db. record db { notifications = row ∷ db.notifications }) w'),
      )

  -- `none` is the integrity error of the flush: `notifications.event_id` refers to `events.id`
  unfoldable pub create : NewNotification → World E → Option (Notification × World E)
  create n w =
      let event_id = resolve_event_id w.db n.event_id in
      elim (event_by_id w.db event_id) [ none ↦ none | some _ ↦ some (insert n event_id w) ]

  -- The object is changed in place: the result is the object and the world.
  unfoldable pub update_status :
      Notification → NotificationStatus → Option String → World E → Notification × World E
  update_status n status reason w =
      let n' : Notification = record n { status = status } in
      (n', add_status_history n' (some n.status) status reason (on_db (write n') w))

  unfoldable pub increment_retry : Notification → World E → Notification × World E
  increment_retry n w =
      let n' : Notification = record n { retry_count = n.retry_count + 1 } in
      (n', on_db (write n') w)

-- the statuses that `has_booking_notification` counts
abbrev is_live : NotificationStatus → Bool
is_live NotificationStatus.sent = true
is_live NotificationStatus.delivered = true
is_live NotificationStatus.created = true
is_live _ = false

abbrev is_text : Option String → String → Bool
is_text none t = false
is_text (some s) t = s == t

-- An empty list of channels and an absent prefix are no conditions; a prefix is one without the
-- wildcards of LIKE.
abbrev on_channels : List String → String → Bool
on_channels [] channel = true
on_channels (c ∷ cs) channel = any (λ d. d == channel) (c ∷ cs)

abbrev has_prefix : Option String → Option String → Bool
has_prefix none template = true
has_prefix (some prefix) none = prefix == ""
has_prefix (some prefix) (some template) = starts_with template prefix

unfoldable pub has_booking_notification : Db → String → List String → Option String → Bool
has_booking_notification db booking_id channels template_prefix = ltb 0 (
    count_where
      (λ n.
        is_text n.booking_id booking_id
        && is_live n.status
        && on_channels channels n.channel
        && has_prefix template_prefix n.template_name)
      db.notifications)
