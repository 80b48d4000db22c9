-- ===== src/Events/Processor/Repeats.antt =====
-- An event that the queue delivers any number of times.
use ushnotice.Common.{◌≡◌, refl, ◌∙◌, true, some, List, All}
use ushnotice.Domain.Models.{Event}
use ushnotice.Store.{World}
use ushnotice.Store.Events.{is_real_id}
use ushnotice.Events.Envelope.{EventEnvelope}
use ushnotice.Events.Handler.{EventHandler, LeavesRouting}
use ushnotice.Events.Registry.{Registry, resolve}
use ushnotice.Events.Router.Delivery.{AllBlocked}
use ushnotice.Events.Router.Lookup.{found_pk}
use ushnotice.Events.Processor.{stored, SqsIds, process_valid}
use ushnotice.Events.Processor.Redelivery.{Untouched, process_valid_skip, process_valid_stored}

module _ {E : Type 0} (registry : Registry E) (env : EventEnvelope) where
  -- The worlds that come of one by any number of further deliveries of the event.
  pub data Redelivered (first : World E) : World E → Type 0 where
    delivered_once : Redelivered first first
    delivered_again :
        {v : World E} (ids : SqsIds)
        → Redelivered first v
        → Redelivered first (process_valid registry env ids v).1

  -- What stays as it was through the deliveries.
  record Settled (hs : List (EventHandler E)) (event : Event) (first v : World E) : Type 0 where
    found : found_pk v.db.events env.event_id ≡ some event.id
    all_blocked : AllBlocked v.db event.id hs
    processings : v.db.processings ≡ first.db.processings
    notifications : v.db.notifications ≡ first.db.notifications
    outside : v.env ≡ first.env

  module _ (hs : List (EventHandler E)) (event : Event) (real : is_real_id env.event_id ≡ true)
      (known : resolve env.event_type registry ≡ some hs) (leaves : All LeavesRouting hs) where
    again :
        (first v : World E) (ids : SqsIds)
        → Settled hs event first v
        → Untouched event v (process_valid registry env ids v)
    again first v ids s =
        process_valid_skip registry env ids v hs event real known s.found s.all_blocked

    Settled-step :
        (first v : World E) (ids : SqsIds)
        → Settled hs event first v
        → Settled hs event first (process_valid registry env ids v).1
    Settled-step first v ids s =
        let u = again first v ids s in
        let (found, blocked) =
          process_valid_stored registry env ids v hs u.again real known leaves u.ended in
        record {
          found = rw (← u.same_row) found;
          all_blocked = rw (← u.same_row) blocked;
          processings = u.processings ∙ s.processings;
          notifications = u.notifications ∙ s.notifications;
          outside = u.env ∙ s.outside;
        }

    Redelivered-Settled :
        {first v : World E}
        → Settled hs event first first
        → Redelivered first v
        → Settled hs event first v
    Redelivered-Settled s delivered_once = s
    Redelivered-Settled {first = first} s (delivered_again {v} ids r) =
        Settled-step first v ids (Redelivered-Settled s r)

    -- If a valid event with an id of its own and a type with handlers, all of which leave the
    -- tables events and event_processings alone, was processed and stored, then however often it is
    -- delivered again, the next processing stores the row it finds, with the same key, and leaves
    -- the processings, the notifications and the world outside the database as they were after the
    -- first.
    pub process_valid_repeats :
        (ids ids' : SqsIds) (w v : World E)
        → (process_valid registry env ids w).0 ≡ stored event
        → Redelivered (process_valid registry env ids w).1 v
        → Untouched event (process_valid registry env ids w).1 (process_valid registry env ids' v)
    process_valid_repeats ids ids' w v out r =
        let first = (process_valid registry env ids w).1 in
        let (found, blocked) =
          process_valid_stored registry env ids w hs event real known leaves out in
        let start : Settled hs event first first = record {
          found = found;
          all_blocked = blocked;
          processings = refl;
          notifications = refl;
          outside = refl;
        } in
        let s = Redelivered-Settled start r in
        let u = again first v ids' s in
        record {
          again = u.again;
          ended = u.ended;
          same_row = u.same_row;
          processings = u.processings ∙ s.processings;
          notifications = u.notifications ∙ s.notifications;
          env = u.env ∙ s.outside;
        }
