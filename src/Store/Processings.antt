-- ===== src/Store/Processings.antt =====
-- `EventProcessingRepository`
use ushnotice.Common.{
  String, ◌==◌, ◌||◌, ◌&&◌, Bool, Option, none, some, List, ◌∷◌, find_first, any, update_where,
}
use ushnotice.Domain.Enums.{EventProcessingStatus}
use ushnotice.Domain.Models.{Event, EventProcessing}
use ushnotice.Store.{Db, World, uuid4, on_db}
use ushnotice.Store.Events.{get_by_id}

-- The row's event is the given one, by its key or by its event id.
unfoldable pub is_for : List Event → String → String → EventProcessing → Bool
is_for events event_id handler_name p =
    (p.event_id == event_id || any (λ e. e.event_id == event_id && e.id == p.event_id) events)
    && p.handler_name == handler_name

unfoldable pub get : Db → String → String → Option EventProcessing
get db event_id handler_name = find_first (is_for db.events event_id handler_name) db.processings

-- `Event.id` of the newest event with this event id
abbrev pub newest_pk : Db → String → Option Event
newest_pk db event_id = find_first (λ (e : Event). e.event_id == event_id) db.events

-- The key of the event that an id stands for, or the id itself where there is none.
unfoldable pub resolve_event_id : Db → String → String
unfolding get_by_id
resolve_event_id db event_id = elim (get_by_id db event_id) [
  | some _ ↦ event_id
  | none ↦ elim (newest_pk db event_id) [ some e ↦ e.id | none ↦ event_id ]
]

module _ {E : Type 0} where
  unfoldable pub create : String → String → World E → EventProcessing × World E
  unfolding uuid4
  create event_id handler_name w =
      let (pk, w') = uuid4 w in
      let ep : EventProcessing = record {
        id = pk;
        event_id = resolve_event_id w.db event_id;
        handler_name = handler_name;
        status = EventProcessingStatus.pending;
        error = none;
      } in
      (ep, on_db (λ db. record db { processings = ep ∷ db.processings }) w')

  -- `update(EventProcessing).where(EventProcessing.id == ep.id).values(…)`
  unfoldable pub update_processing :
      EventProcessing → (EventProcessing → EventProcessing) → World E → World E
  update_processing ep f =
      on_db (λ db. record db { processings = update_where (λ p. p.id == ep.id) f db.processings })

  unfoldable pub mark_processing : EventProcessing → World E → World E
  unfolding update_processing
  mark_processing ep =
      update_processing ep (λ p. record p { status = EventProcessingStatus.processing })

  unfoldable pub mark_completed : EventProcessing → World E → World E
  unfolding update_processing
  mark_completed ep =
      update_processing ep (λ p. record p { status = EventProcessingStatus.completed })

  unfoldable pub mark_failed : EventProcessing → String → World E → World E
  unfolding update_processing
  mark_failed ep error =
      update_processing ep
        (λ p. record p { status = EventProcessingStatus.failed; error = some error })

  unfoldable pub mark_skipped : EventProcessing → World E → World E
  unfolding update_processing
  mark_skipped ep = update_processing ep (λ p. record p { status = EventProcessingStatus.skipped })
