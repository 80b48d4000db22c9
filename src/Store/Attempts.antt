-- ===== src/Store/Attempts.antt =====
-- `NotificationAttemptRepository`
use ushnotice.Common.{
  ℕ, String, ◌==◌, Bool, true, Option, none, some, ◌∷◌, find_first, count_where, update_where,
}
use ushnotice.Json.{Json}
use ushnotice.Domain.Enums.{AttemptStatus}
use ushnotice.Domain.Models.{NotificationAttempt}
use ushnotice.Store.{Db, World, uuid4, on_db}

abbrev pub write : NotificationAttempt → Db → Db
write a db = record db { attempts = update_where (λ b. b.id == a.id) (λ _. a) db.attempts }

abbrev has_message_id : String → Option String → Bool
has_message_id id none = Bool.false
has_message_id id (some other) = other == id

unfoldable pub count_for_notification : Db → String → ℕ
count_for_notification db notification_id =
    count_where (λ a. a.notification_id == notification_id) db.attempts

unfoldable pub get_by_provider_message_id : Db → String → Option NotificationAttempt
get_by_provider_message_id db id =
    find_first (λ a. has_message_id id a.provider_message_id) db.attempts

module _ {E : Type 0} where
  unfoldable pub create : String → String → ℕ → World E → NotificationAttempt × World E
  unfolding uuid4
  create notification_id provider attempt_number w =
      let (pk, w') = uuid4 w in
      let a : NotificationAttempt = record {
        id = pk;
        notification_id = notification_id;
        provider = provider;
        attempt_number = attempt_number;
        status = AttemptStatus.in_progress;
        provider_message_id = none;
        provider_response = none;
        error_code = none;
        error_message = none;
        is_retryable = true;
      } in
      (a, on_db (λ db. record db { attempts = a ∷ db.attempts }) w')

  unfoldable pub mark_success :
      NotificationAttempt → Option String → Option Json → World E → NotificationAttempt × World E
  mark_success a provider_message_id provider_response w =
      let a' : NotificationAttempt = record a {
        status = AttemptStatus.success;
        provider_message_id = provider_message_id;
        provider_response = provider_response;
      } in
      (a', on_db (write a') w)

  unfoldable pub mark_failed :
      NotificationAttempt
      → Option String
      → Option String
      → Option Json
      → Bool
      → World E
      → NotificationAttempt × World E
  mark_failed a error_code error_message provider_response is_retryable w =
      let a' : NotificationAttempt = record a {
        status = AttemptStatus.failed;
        error_code = error_code;
        error_message = error_message;
        provider_response = provider_response;
        is_retryable = is_retryable;
      } in
      (a', on_db (write a') w)

  -- `attempt.status = status`, which the next flush writes
  unfoldable pub set_status : NotificationAttempt → AttemptStatus → World E → World E
  set_status a status = on_db (write (record a { status = status }))
