-- ===== src/Tests/Channels.antt =====
-- Recipients, a refusal of KWT SMS, retries and pages.
use ushnotice.Common
use ushnotice.Common.{
  ℕ, suc, ◌+◌, ◌≤◌, ◌<◌, ◌≡◌, ◌≢◌, refl, String, true, false, Option, some, none, List, [], ◌∷◌,
}
use ushnotice.Json.{Json, str, num, obj, Fields, field, end, null}
use ushnotice.Domain.Enums.{sms, whatsapp, NotificationStatus}
use ushnotice.Domain.Models.{Notification}
use ushnotice.Domain.Values.{NotificationRequest}
use ushnotice.Store.{World, empty_db}
use ushnotice.Notify.Services.{Services, delivered}
use ushnotice.Notify.Renderer.{JinjaResult}
use ushnotice.Notify.Attempting.{attempt_loop}
use ushnotice.Notify.Resolver.{resolve_sms_recipient, resolve_whatsapp_recipient}
use ushnotice.Notify.Resolver.Laws.{on_channel, resolve_whatsapp_recipient-on_channel}
use ushnotice.Providers.Kwtsms.{Provider, responded, send_sms}
use ushnotice.Providers.Kwtsms.Laws.{attempt_loop_final_code}
use ushnotice.Util.Retry.{Ended, retryable, raised_nothing, exponential_backoff_with_jitter}
use ushnotice.Util.Retry.Laws.{exponential_backoff_with_jitter_bounded}
use ushnotice.Util.Pagination.{PaginationParams, pages, offset}
use ushnotice.Util.Pagination.Bounds.{offset_bounded}

abbrev text : Json → String
text (str t) = t
text _ = ""

abbrev customer : Fields
customer =
    field "customer" (obj (field "phone" (str "96550000001") (field "name" (str "Sara") end))) end

resolve_whatsapp_recipient-on_channel_example :
    resolve_whatsapp_recipient (λ t. t) text customer none "ar"
    ≡ on_channel whatsapp (resolve_sms_recipient (λ t. t) text customer none "ar")
unfolding ushnotice.Json.truthy ushnotice.Json.get ushnotice.Notify.Resolver.first_of
    ushnotice.Json.or_else
resolve_whatsapp_recipient-on_channel_example =
    resolve_whatsapp_recipient-on_channel (λ t. t) text customer none "ar" refl
      (refl, (refl, (refl, (refl, tt))))

-- The world outside is the number of requests; KWT SMS knows no such user.
abbrev provider : Provider ℕ
provider = record {
  username = "u";
  password = "p";
  sender_id = "USHSPA";
  test_mode = false;
  is_decimal = λ c. true;
  is_digit = λ c. true;
  str_of = text;
  str_of_int = λ n. "1";
  repr = λ t. t;
  shape_error = λ v. "AttributeError";
  post = λ p n.
      (responded (obj (field "result" (str "ERROR") (field "code" (str "ERR003") end))), suc n);
}

abbrev services : Services ℕ
services = record {
  set_nx = λ k n. (some true, n);
  delete = λ k n. n;
  deliver = λ c to subject body n.
      (delivered (send_sms provider to body "" n).0, (send_sms provider to body "" n).1);
  jinja = λ name html context. JinjaResult.not_found;
  strip = λ t. t;
  repr = λ t. t;
  str_of = text;
  str_of_int = λ n. "1";
}

abbrev request : NotificationRequest
request = record {
  event_id = "e-1";
  recipient = record { channel = sms; address = "96550000001"; name = ""; language = "en" };
  template_name = "user/verified";
  template_context = end;
  subject = "";
  customer_id = none;
  booking_id = none;
  correlation_id = none;
}

abbrev notification : Notification
notification = record {
  id = "n-1";
  event_id = "e-1";
  customer_id = none;
  booking_id = none;
  channel = "sms";
  recipient = "96550000001";
  recipient_name = none;
  template_name = some "user/verified";
  subject = none;
  status = NotificationStatus.processing;
  provider = some "kwtsms";
  retry_count = 0;
  correlation_id = none;
}

abbrev start : World ℕ
start = record { db = empty_db; saved = empty_db; uuids = λ n. "u-1"; env = 0 }

attempt_loop_final_code_example :
    attempt_loop services request "kwtsms" "Welcome" 2 1 notification start
    ≡ attempt_loop services request "kwtsms" "Welcome" 0 1 notification start
unfolding ushnotice.Providers.Kwtsms.is_number ushnotice.Providers.Kwtsms.normalise_phone
    ushnotice.Json.get ushnotice.Providers.Kwtsms.get_or ushnotice.Json.has_key Common.any
attempt_loop_final_code_example =
    attempt_loop_final_code provider services request "kwtsms" "Welcome" 2 1 notification start
      (field "result" (str "ERROR") (field "code" (str "ERR003") end)) "ERR003"
      (λ to subject body n. refl) refl refl refl refl refl refl

-- a call that is never answered
abbrev busy : ℕ → Ended String × ℕ
busy n = (retryable "timed out", suc n)

exponential_backoff_with_jitter_bounded_example :
    ((exponential_backoff_with_jitter busy 3 0).0 ≢ raised_nothing)
    × ((exponential_backoff_with_jitter busy 3 0).1 ≤ 0 + 3)
exponential_backoff_with_jitter_bounded_example =
    exponential_backoff_with_jitter_bounded busy 2 0 (λ n. n) (λ n. refl)

abbrev third_page : PaginationParams
third_page = record { page = 3; page_size = 20 }

offset_bounded_example :
    ((3 ≤ pages 45 third_page) → offset third_page < 45)
    × ((pages 45 third_page < 3) → 45 ≤ offset third_page)
offset_bounded_example =
    offset_bounded 45 3 20 (omega Common.arith) (omega Common.arith) (omega Common.arith)
