-- ===== src/Tests/Processing.antt =====
-- Messages of the queue: a valid one, one that is delivered twice, and one that is no JSON.
use ushnotice.Common
use ushnotice.Common.{
  ℕ, ◌≡◌, ◌≢◌, refl, String, ◌<>◌, ◌==◌, true, some, none, List, [], ◌∷◌, if◌then◌else◌,
}
use ushnotice.Common.Int.{pos}
use ushnotice.Json.{Fields, get, Json, null, obj, str, field, end}
use ushnotice.Store.{World, rollback}
use ushnotice.Store.Events
use ushnotice.Store.Events.{is_real_id}
use ushnotice.Store.Processings
use ushnotice.Events.Envelope.{merge_data}
use ushnotice.Events.Envelope.Merge.{merged_value, get-merge_data}
use ushnotice.Events.Processor.{
  Platform, loaded, load_error, valid, stored, validation_error, process_valid, process_raw_message,
}
use ushnotice.Events.Processor.Laws.{IsClean, process_raw_message-IsClean}
use ushnotice.Events.Processor.Redelivery.{Untouched}
use ushnotice.Events.Processor.Repeats.{delivered_once, delivered_again, process_valid_repeats}
use ushnotice.Events.Registry.{resolve}
use ushnotice.Events.Consumer.{SqsMessage, process_and_delete}
use ushnotice.Events.Consumer.Laws.{ids_of, db-process_and_delete}
use ushnotice.Common.{◌⊎◌}
use ushnotice.Events.Processor.Carried.{Carries}
use ushnotice.Events.Consumer.Redelivery.{
  Completed, process_and_delete-Completed, process_and_delete_again,
}
use ushnotice.Tests.Samples.{
  Log, logging, logging-LeavesRouting, good, mixed, envelope, event, start, queue_ids,
}

-- A platform on which one text is the JSON of the sample's envelope.
abbrev platform : Platform
platform = record {
  loads = λ raw.
      if raw == "{…}"
      then loaded (obj (field "event_id" (str "7f3e") end))
      else load_error "Expecting value";
  validate = λ v. valid envelope;
  str_of = λ v. "";
  int_of = λ v. some (pos 1);
  int_of_float = λ v. some (pos 1);
  int_json = λ n. null;
  now = "2026-01-01T00:00:00+00:00";
  prefix = λ n t. t;
}

abbrev deleting : String → Log → Log
deleting receipt log = ("deleted " <> receipt) ∷ log

abbrev broken : SqsMessage
broken = record { receipt_handle = "r-1"; message_id = "m-1"; body = "nonsense" }

abbrev whole : SqsMessage
whole = record { receipt_handle = "r-1"; message_id = "m-1"; body = "{…}" }

good_known : resolve "voucher.ACTIVE" good ≡ some (logging ∷ [])
unfolding resolve Common.lower
good_known = refl

event_real : is_real_id "7f3e" ≡ true
unfolding is_real_id
event_real = refl

first_stored : (process_valid good envelope queue_ids start).0 ≡ stored event
unfolding process_valid ushnotice.Events.Router.route resolve Common.lower
    ushnotice.Events.Router.run_handlers ushnotice.Events.Router.run_handler
    ushnotice.Events.Idempotency.acquire Processings.get Common.find_first Events.mark_processing
    ushnotice.Store.commit Events.create
first_stored = refl

process_valid_repeats_example : Untouched event (process_valid good envelope queue_ids start).1 (
    process_valid good envelope queue_ids
      (process_valid good envelope queue_ids (process_valid good envelope queue_ids start).1).1)
process_valid_repeats_example =
    process_valid_repeats good envelope (logging ∷ []) event event_real good_known
      (logging-LeavesRouting, tt) queue_ids queue_ids start
      (process_valid good envelope queue_ids (process_valid good envelope queue_ids start).1).1
      first_stored (delivered_again queue_ids delivered_once)

process_raw_message-IsClean_example :
    IsClean (process_raw_message platform mixed "{…}" queue_ids start).1
process_raw_message-IsClean_example =
    process_raw_message-IsClean platform mixed "{…}" queue_ids start refl

db-process_and_delete_example :
    (process_and_delete platform deleting mixed whole start).db
    ≡ (process_raw_message platform mixed "{…}" queue_ids (rollback start)).1.db
db-process_and_delete_example = db-process_and_delete platform deleting mixed whole start

-- The message whose body is the envelope.
whole-Carries : Carries Log platform "{…}" envelope
unfolding ushnotice.Json.has_key ushnotice.Events.Processor.model_validate ushnotice.Json.as_dict
whole-Carries = record {
  fields = field "event_id" (str "7f3e") end;
  parsed = refl;
  plain = refl;
  own_id = refl;
  validated = λ w. refl;
}

process_and_delete-Completed_example :
    ((process_and_delete platform deleting good whole start).env
      ≡ (process_raw_message platform good "{…}" (ids_of whole) (rollback start)).1.env)
    ⊎ Completed envelope
        (logging ∷ [])
        (process_and_delete platform deleting good whole start).saved
process_and_delete-Completed_example =
    process_and_delete-Completed platform deleting good envelope (logging ∷ []) event_real
      good_known (logging-LeavesRouting, tt) whole start whole-Carries

-- A body that is no JSON stays in the queue.
broken_kept : (process_and_delete platform deleting good broken start).env ≡ start.env
unfolding process_and_delete ushnotice.Store.commit Events.mark_invalid Events.create
broken_kept = refl

whole_stored :
    (process_raw_message platform good "{…}" (ids_of whole) (rollback start)).0 ≡ stored event
unfolding process_raw_message ushnotice.Json.as_dict ushnotice.Json.has_key
    ushnotice.Events.Router.route resolve Common.lower ushnotice.Events.Router.run_handlers
    ushnotice.Events.Router.run_handler ushnotice.Events.Idempotency.acquire Processings.get
    Common.find_first Events.mark_processing ushnotice.Store.commit Events.create rollback
whole_stored = refl

process_and_delete_again_example :
    let v = process_and_delete platform deleting good whole start in
    let v' = process_and_delete platform deleting good whole v in
    (v'.env ≡ deleting "r-1" v.env)
    × (v'.db.processings ≡ v.db.processings)
    × (v'.db.notifications ≡ v.db.notifications)
process_and_delete_again_example =
    process_and_delete_again platform deleting good envelope (logging ∷ []) event_real good_known
      (logging-LeavesRouting, tt) whole whole start event whole-Carries whole-Carries refl
      whole_stored

-- The root's price is merged into the data, its own name is kept, and the source stays outside.
abbrev root : Fields
root = field "name" (str "a") (field "price" (str "5") (field "source" (str "s") end))

get-merge_data_example :
    get (merge_data root (field "name" (str "b") end)) "name"
    ≡ merged_value root (field "name" (str "b") end) "name"
get-merge_data_example = get-merge_data root (field "name" (str "b") end) "name"

merged_name : get (merge_data root (field "name" (str "b") end)) "name" ≡ str "b"
unfolding get merge_data Common.any ushnotice.Json.has_key ushnotice.Json.put
merged_name = refl

merged_price : get (merge_data root (field "name" (str "b") end)) "price" ≡ str "5"
unfolding get merge_data Common.any ushnotice.Json.has_key ushnotice.Json.put
merged_price = refl
