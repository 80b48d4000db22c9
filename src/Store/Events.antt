-- ===== src/Store/Events.antt =====
-- `EventRepository`
use ushnotice.Common.{
  ◌+◌, String, ◌==◌, ◌||◌, ◌&&◌, not, starts_with, Bool, Option, none, some, ◌∷◌, find_first,
  update_where, if◌then◌else◌,
}
use ushnotice.Common.Int.{ℤ}
use ushnotice.Json.{Fields}
use ushnotice.Domain.Enums.{EventStatus}
use ushnotice.Domain.Models.{Event}
use ushnotice.Store.{Db, World, uuid4, on_db}

-- the columns that `create` is given
pub record NewEvent : Type 0 where
  pub event_id : String
  pub event_type : String
  pub version : ℤ
  pub source : String
  pub correlation_id : Option String
  pub causation_id : Option String
  pub payload : Option Fields
  pub sqs_message_id : Option String
  pub sqs_receipt_handle : Option String

-- the test for an id that is no placeholder
unfoldable pub is_real_id : String → Bool
is_real_id event_id =
    not (event_id == "")
    && not (starts_with event_id "malformed-json")
    && not (event_id == "validation-error")

unfoldable pub get_by_event_id : Db → String → Option Event
get_by_event_id db event_id = find_first (λ e. e.event_id == event_id || e.id == event_id) db.events

unfoldable pub get_by_id : Db → String → Option Event
get_by_id db pk = find_first (λ e. e.id == pk) db.events

abbrev row_of : NewEvent → String → Event
row_of n pk = record {
  id = pk;
  event_id = n.event_id;
  event_type = n.event_type;
  version = n.version;
  source = n.source;
  correlation_id = n.correlation_id;
  causation_id = n.causation_id;
  payload = n.payload;
  status = EventStatus.received;
  error = none;
  retry_count = 0;
  sqs_message_id = n.sqs_message_id;
  sqs_receipt_handle = n.sqs_receipt_handle;
}

abbrev add : Event → Db → Db
add e db = record db { events = e ∷ db.events }

module _ {E : Type 0} where
  -- `self._db.add(event)`, and the row as the result
  unfoldable pub insert : NewEvent → String → World E → Event × World E
  insert n pk w = (row_of n pk, on_db (add (row_of n pk)) w)

  unfoldable pub create : NewEvent → World E → Event × World E
  unfolding is_real_id get_by_event_id uuid4 insert
  create n w =
      if is_real_id n.event_id
      then (elim (get_by_event_id w.db n.event_id) [
        | some existing ↦ (existing, w)
        | none ↦ insert n n.event_id w
      ])
      else (let (pk, w') = uuid4 w in insert n pk w')

  -- `update(Event).where(Event.id == pk).values(…)`
  unfoldable pub update_event : String → (Event → Event) → World E → World E
  update_event pk f =
      on_db (λ db. record db { events = update_where (λ e. e.id == pk) f db.events })

  unfoldable pub mark_processing : Event → World E → World E
  unfolding update_event
  mark_processing event = update_event event.id (λ e. record e { status = EventStatus.processing })

  unfoldable pub mark_processed_by_id : String → World E → World E
  unfolding update_event
  mark_processed_by_id pk = update_event pk (λ e. record e { status = EventStatus.processed })

  unfoldable pub mark_processed : Event → World E → World E
  unfolding update_event
  mark_processed event = update_event event.id (λ e. record e { status = EventStatus.processed })

  unfoldable pub mark_failed_by_id : String → String → World E → World E
  unfolding update_event
  mark_failed_by_id pk error = update_event pk (λ e. record e {
    status = EventStatus.failed;
    error = some error;
    retry_count = e.retry_count + 1;
  })

  unfoldable pub mark_failed : Event → String → World E → World E
  unfolding update_event
  mark_failed event error = update_event event.id (λ e. record e {
    status = EventStatus.failed;
    error = some error;
    retry_count = e.retry_count + 1;
  })

  unfoldable pub mark_invalid : Event → String → World E → World E
  unfolding update_event
  mark_invalid event error =
      update_event event.id (λ e. record e { status = EventStatus.invalid; error = some error })

  unfoldable pub mark_dlq : Event → World E → World E
  unfolding update_event
  mark_dlq event = update_event event.id (λ e. record e { status = EventStatus.dlq })
