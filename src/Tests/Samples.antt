-- ===== src/Tests/Samples.antt =====
-- The event, the handlers and the worlds of the tests.
use ushnotice.Common.{String, refl, none, some, List, [], ◌∷◌}
use ushnotice.Common.Int.{pos}
use ushnotice.Json.{end}
use ushnotice.Domain.Enums.{EventStatus}
use ushnotice.Domain.Models.{Event}
use ushnotice.Store.{World, empty_db}
use ushnotice.Events.Envelope.{EventEnvelope}
use ushnotice.Events.Handler.{EventHandler, returned, raised, LeavesCommits, LeavesRouting}
use ushnotice.Events.Registry.{Registry}
use ushnotice.Events.Processor.{SqsIds}

-- The world outside is the list of the handlers that ran.
abbrev pub Log : Type 0
Log = List String

abbrev pub logging : EventHandler Log
logging = record {
  event_type = "Voucher.Active";
  class_name = "VoucherActiveHandler";
  handle = λ env w. (returned, record w { env = "voucher" ∷ w.env });
}

abbrev pub failing : EventHandler Log
failing = record {
  event_type = "voucher.active";
  class_name = "SendSMSHandler";
  handle = λ env w. (raised "no provider", record w { env = "sms" ∷ w.env });
}

pub logging-LeavesRouting : LeavesRouting logging
logging-LeavesRouting = record { events = λ env w. refl; processings = λ env w. refl }

pub logging-LeavesCommits : LeavesCommits logging
logging-LeavesCommits = record { saved = λ env w. refl }

pub failing-LeavesCommits : LeavesCommits failing
failing-LeavesCommits = record { saved = λ env w. refl }

abbrev pub good : Registry Log
good = ("voucher.active", logging ∷ []) ∷ []

abbrev pub mixed : Registry Log
mixed = ("voucher.active", logging ∷ failing ∷ []) ∷ []

abbrev pub envelope : EventEnvelope
envelope = record {
  event_id = "7f3e";
  event_type = "voucher.ACTIVE";
  version = pos 1;
  source = "ushbooknpay";
  correlation_id = none;
  causation_id = none;
  body = end;
}

abbrev pub queue_ids : SqsIds
queue_ids = record { message_id = some "m-1"; receipt_handle = some "r-1" }

abbrev pub event : Event
event = record {
  id = "7f3e";
  event_id = "7f3e";
  event_type = "voucher.ACTIVE";
  version = pos 1;
  source = "ushbooknpay";
  correlation_id = none;
  causation_id = none;
  payload = some end;
  status = EventStatus.received;
  error = none;
  retry_count = 0;
  sqs_message_id = some "m-1";
  sqs_receipt_handle = some "r-1";
}

abbrev pub start : World Log
start = record { db = empty_db; saved = empty_db; uuids = λ n. "u-1"; env = [] }

-- the event's row is there and committed
abbrev pub received : World Log
received = record start {
  db = record empty_db { events = event ∷ [] };
  saved = record empty_db { events = event ∷ [] };
}
