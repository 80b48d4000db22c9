-- ===== src/Events/Router.antt =====
-- `EventRouter` of app/events/router.py.
pub mod Failure
pub mod Delivery
pub mod Lookup
use ushnotice.Common.{String, ◌<>◌, none, some, List, [], ◌∷◌, ◌++◌}
use ushnotice.Domain.Models.{Event, EventProcessing}
use ushnotice.Store.{World, commit, rollback}
use ushnotice.Store.Events
use ushnotice.Events.Envelope.{EventEnvelope}
use ushnotice.Events.Handler.{EventHandler, Outcome, returned, raised}
use ushnotice.Events.Registry.{Registry, resolve}
use ushnotice.Events.Idempotency.{Acquired, conflict, granted, acquire, complete, fail}

-- How `route` ends: it returns, or raises `UnknownEventTypeError` or `RuntimeError`.
pub data Routed : Type 0 where
  routed : Routed
  unknown_type : String → Routed
  failed : String → Routed

-- `" | ".join(errors)`
unfoldable pub join : List String → String
join [] = ""
join (e ∷ []) = e
join (e ∷ e' ∷ es) = e <> " | " <> join (e' ∷ es)

module _ {E : Type 0} where
  -- After the handler: its record is completed, or the session is rolled back and the record
  -- marked as failed.
  settle : EventHandler E → EventProcessing → Outcome × World E → List String × World E
  settle h p (returned, w) = ([], complete p w)
  settle h p (raised message, w) =
      (("[" <> h.class_name <> "] " <> message) ∷ [], fail p message (rollback w))

  -- After `acquire`: a conflict skips the handler.
  proceed : EventEnvelope → EventHandler E → Acquired × World E → List String × World E
  proceed env h (conflict, w) = ([], w)
  proceed env h (granted p, w) = settle h p (h.handle env w)

  -- One round of the loop, with the errors that it appends.
  unfoldable pub run_handler :
      EventEnvelope → String → EventHandler E → World E → List String × World E
  unfolding proceed settle
  run_handler env pk h w = proceed env h (acquire pk h.class_name w)

  unfoldable pub run_handlers :
      EventEnvelope → String → List (EventHandler E) → World E → List String × World E
  run_handlers env pk [] w = ([], w)
  run_handlers env pk (h ∷ hs) w =
      let (errors, w') = run_handler env pk h w in
      let (later, w'') = run_handlers env pk hs w' in (errors ++ later, w'')

  -- The end of `route`: what was done is undone on any error, and only the event's row is marked.
  unfoldable pub finish : EventEnvelope → String → List String × World E → Routed × World E
  finish env pk ([], w) = (routed, Events.mark_processed_by_id pk w)
  finish env pk (e ∷ es, w) =
      let full_error = join (e ∷ es) in
      (
        failed ("Handler execution failed for event " <> env.event_id <> ": " <> full_error),
        commit (Events.mark_failed_by_id pk full_error (rollback w)),
      )

  unfoldable pub route : Registry E → EventEnvelope → Event → World E → Routed × World E
  unfolding finish join
  route registry env event w = elim (resolve env.event_type registry) [
    | none ↦ (unknown_type env.event_type, w)
    | some handlers ↦
        finish env event.id (run_handlers env event.id handlers (Events.mark_processing event w))
  ]
