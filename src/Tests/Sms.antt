-- ===== src/Tests/Sms.antt =====
-- An event that asks for two SMS, delivered twice.
use ushnotice.Common
use ushnotice.Common.{◌≡◌, refl, String, true, some, none, List, [], ◌∷◌, All}
use ushnotice.Common.Int.{pos}
use ushnotice.Json.{Json, str, arr, nil, cons, Fields, field, end}
use ushnotice.Domain.Enums.{EventStatus}
use ushnotice.Domain.Models.{Event}
use ushnotice.Store.{World, empty_db}
use ushnotice.Store.Events.{is_real_id}
use ushnotice.Events.Envelope.{EventEnvelope}
use ushnotice.Events.Registry.{Registry, resolve}
use ushnotice.Events.Processor.{stored, process_valid}
use ushnotice.Handlers.SendSms.{handler, send_all}
use ushnotice.Handlers.SendSms.Laws.{IsClaimed, to_phone, send_all_held}
use ushnotice.Tests.Samples.{queue_ids}
use ushnotice.Tests.Redis.{Keys, services, services-KeepsKeys, settings}

abbrev no_strip : Json → String
no_strip v = "AttributeError: no attribute 'strip'"

abbrev body : Fields
body =
    field "content" (str "Your visit is tomorrow")
      (field "phone_numbers" (arr (cons (str "96550000001") (cons (str "96550000002") nil))) end)

abbrev envelope : EventEnvelope
envelope = record {
  event_id = "90aa";
  event_type = "sms.send";
  version = pos 1;
  source = "ushauth";
  correlation_id = none;
  causation_id = none;
  body = body;
}

abbrev event : Event
event = record {
  id = "90aa";
  event_id = "90aa";
  event_type = "sms.send";
  version = pos 1;
  source = "ushauth";
  correlation_id = none;
  causation_id = none;
  payload = some body;
  status = EventStatus.received;
  error = none;
  retry_count = 0;
  sqs_message_id = some "m-1";
  sqs_receipt_handle = some "r-1";
}

abbrev registry : Registry Keys
registry = ("sms.send", handler services settings no_strip ∷ []) ∷ []

abbrev start : World Keys
start = record { db = empty_db; saved = empty_db; uuids = λ n. "u-1"; env = [] }

handler_known : resolve "sms.send" registry ≡ some (handler services settings no_strip ∷ [])
unfolding resolve Common.lower
handler_known = refl

id_real : is_real_id "90aa" ≡ true
unfolding is_real_id
id_real = refl

first_stored : (process_valid registry envelope queue_ids start).0 ≡ stored event
unfolding process_valid ushnotice.Events.Router.route resolve Common.lower
    ushnotice.Events.Router.run_handlers ushnotice.Events.Router.run_handler
    ushnotice.Events.Idempotency.acquire ushnotice.Store.Processings.get Common.find_first
    ushnotice.Store.Events.mark_processing ushnotice.Store.commit ushnotice.Store.Events.create
    handler ushnotice.Json.or_else ushnotice.Json.get services
first_stored = refl

-- the claim of the message to the first number
abbrev claimed : World Keys
claimed = record start { env = "notif_sent:sms/direct:sms:96550000001:90aa" ∷ [] }

first_claimed :
    IsClaimed services settings no_strip services-KeepsKeys envelope "hello" claimed
      (to_phone services settings no_strip services-KeepsKeys envelope "96550000001")
unfolding ushnotice.Domain.Values.recipient services-KeepsKeys ushnotice.Notify.Service.dedup_key
    ushnotice.Handlers.SendSms.request
first_claimed = refl

send_all_held_example :
    send_all services settings no_strip envelope "hello" ("96550000001" ∷ []) claimed ≡ claimed
send_all_held_example =
    send_all_held services settings no_strip services-KeepsKeys envelope "hello"
      ("96550000001" ∷ []) claimed (first_claimed, tt)
