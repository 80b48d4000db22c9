-- ===== src/Events/Processor/Redelivery.antt =====
-- An event that is delivered again after its handlers completed.
use ushnotice.Common.{
  ◌≡◌, ◌≢◌, refl, ap, sym, ◌∙◌, String, ◌==◌, ◌||◌, eq_refl, true, some, List, [], ◌∷◌, All, arith,
  inl, inr, Option-cases, find_first,
}
use mathlib.Core.Option.{some_inj}
use ushnotice.Domain.Models.{Event}
use ushnotice.Store.{World, commit}
use ushnotice.Store.Events
use ushnotice.Store.Events.{NewEvent, get_by_event_id, is_real_id, update_event, insert, create}
use ushnotice.Events.Envelope.{EventEnvelope}
use ushnotice.Events.Handler.{EventHandler, LeavesRouting}
use ushnotice.Events.Registry.{Registry, resolve}
use ushnotice.Events.Router.{Routed, routed, unknown_type, failed, finish, route}
use ushnotice.Events.Router.Delivery.{AllBlocked, route-AllBlocked, route_skip}
use ushnotice.Events.Router.Lookup.{found_pk, found_pk-route}
use ushnotice.Events.Processor.{Processed, stored, SqsIds, after_route, process_valid, event_of}

module _ {E : Type 0} where
  found_pk-create :
      (n : NewEvent) (w : World E)
      → is_real_id n.event_id ≡ true
      → found_pk (create n w).1.db.events n.event_id ≡ some (create n w).0.id
  unfolding found_pk create insert get_by_event_id find_first
  found_pk-create n w real = ground (arith, eq_refl n.event_id)

  create_found :
      (n : NewEvent) (w : World E) (pk : String)
      → is_real_id n.event_id ≡ true
      → found_pk w.db.events n.event_id ≡ some pk
      → ((create n w).0.id ≡ pk) × ((create n w).1 ≡ w)
  unfolding found_pk create get_by_event_id
  create_found n w pk real found =
      elim (Option-cases
        (find_first (λ e. e.event_id == n.event_id || e.id == n.event_id) w.db.events)) [
          | inl e ↦ cc (rw e at found)
          | inr (x, e) ↦ rw (real, create) (rw (e, create) (some_inj.0 (rw e at found), refl))
        ]

  -- Processing that ends well, of a type with handlers, is routing that raised nothing.
  after_route_stored :
      (event e : Event) (r : Routed × World E)
      → ((t : String) → r.0 ≢ unknown_type t)
      → (after_route event r).0 ≡ stored e
      → (r.0 ≡ routed) × (event ≡ e) × ((after_route event r).1 ≡ commit r.1)
  unfolding after_route
  after_route_stored event e (routed, w) known s = (refl, cc, refl)
  after_route_stored event e (unknown_type t, w) known s = absurd (known t refl)
  after_route_stored event e (failed m, w) known s = cc

  finish_known :
      (env : EventEnvelope) (pk : String) (r : List String × World E) (t : String)
      → (finish env pk r).0 ≢ unknown_type t
  unfolding finish
  finish_known env pk ([], w) t e = cc
  finish_known env pk (x ∷ xs, w) t e = cc

  route_known :
      (registry : Registry E) (env : EventEnvelope) (event : Event) (w : World E)
      (hs : List (EventHandler E)) (t : String)
      → resolve env.event_type registry ≡ some hs
      → (route registry env event w).0 ≢ unknown_type t
  unfolding route
  route_known registry env event w hs t found = rw (found, route) (finish_known env event.id _ t)

  -- The event was processed again without a trace but the mark on its row.
  pub record Untouched (event : Event) (w : World E) (r : Processed × World E) : Type 0 where
    pub again : Event
    pub ended : r.0 ≡ stored again
    pub same_row : again.id ≡ event.id
    pub processings : r.1.db.processings ≡ w.db.processings
    pub notifications : r.1.db.notifications ≡ w.db.notifications
    pub env : r.1.env ≡ w.env

  -- What a processing of an event does whose row is there and whose handlers are blocked.
  pub process_valid_skip :
      (registry : Registry E) (env : EventEnvelope) (ids : SqsIds) (w : World E)
      (hs : List (EventHandler E)) (event : Event)
      → is_real_id env.event_id ≡ true
      → resolve env.event_type registry ≡ some hs
      → found_pk w.db.events env.event_id ≡ some event.id
      → AllBlocked w.db event.id hs
      → Untouched event w (process_valid registry env ids w)
  unfolding process_valid
  process_valid_skip registry env ids w hs event real known found blocked =
      let c = create (event_of env ids) w in
      let (same, still) =
        create_found (event_of env ids) w event.id (unfold event_of in real)
          (unfold event_of in found) in
      let skipped : route registry env c.0 (commit c.1)
          ≡ (routed, Events.mark_processed_by_id c.0.id (Events.mark_processing c.0 (commit c.1))) =
        route_skip registry env c.0 (commit c.1) hs known
          (unfold commit in rw (same, still) blocked) in
      rw skipped (
        unfold after_route Events.mark_processed_by_id Events.mark_processing update_event commit in
        record {
          again = c.0;
          ended = refl;
          same_row = same;
          processings = ap (λ (v : World E). v.db.processings) still;
          notifications = ap (λ (v : World E). v.db.notifications) still;
          env = ap (λ (v : World E). v.env) still;
        })

  -- After a processing that ends well the row is found and the handlers are blocked.
  pub process_valid_stored :
      (registry : Registry E) (env : EventEnvelope) (ids : SqsIds) (w : World E)
      (hs : List (EventHandler E)) (event : Event)
      → is_real_id env.event_id ≡ true
      → resolve env.event_type registry ≡ some hs
      → All LeavesRouting hs
      → (process_valid registry env ids w).0 ≡ stored event
      → (found_pk (process_valid registry env ids w).1.db.events env.event_id ≡ some event.id)
        × AllBlocked (process_valid registry env ids w).1.db event.id hs
  unfolding process_valid
  process_valid_stored registry env ids w hs event real known l s =
      let c = create (event_of env ids) w in
      let (is_routed, same, now) =
        after_route_stored c.0 event (route registry env c.0 (commit c.1))
          (λ t. route_known registry env c.0 (commit c.1) hs t known) s in
      rw now (
        rw (sym same) (
          (unfold commit in
              found_pk-route registry env c.0 (commit c.1) hs env.event_id known l is_routed
              ∙ (unfold event_of in
                  found_pk-create (event_of env ids) w (unfold event_of in real))),
          (unfold commit in route-AllBlocked registry env c.0 (commit c.1) hs known l is_routed),
        ))

  -- If a valid event with an id of its own and a type with handlers, all of which leave the tables
  -- events and event_processings alone, was processed and stored, then processing it again stores
  -- the row it finds, with the same key, and leaves the processings, the notifications and the
  -- world outside the database as they were.
  pub process_valid_twice :
      (registry : Registry E) (env : EventEnvelope) (ids ids' : SqsIds) (w : World E)
      (hs : List (EventHandler E)) (event : Event)
      → is_real_id env.event_id ≡ true
      → resolve env.event_type registry ≡ some hs
      → All LeavesRouting hs
      → (process_valid registry env ids w).0 ≡ stored event
      → Untouched event
          (process_valid registry env ids w).1
          (process_valid registry env ids' (process_valid registry env ids w).1)
  process_valid_twice registry env ids ids' w hs event real known l s =
      let (found, blocked) = process_valid_stored registry env ids w hs event real known l s in
      process_valid_skip registry env ids' (process_valid registry env ids w).1 hs event real known
        found blocked
