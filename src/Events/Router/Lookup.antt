-- ===== src/Events/Router/Lookup.antt =====
-- The router leaves an event under the key that it is found under.
use mathlib.Core.Option
use ushnotice.Common.{
  ◌≡◌, refl, ap, ◌∙◌, String, ◌==◌, ◌||◌, Bool, Option, some, List, [], ◌∷◌, All, arith, inl, inr,
  Bool-cases, Option-cases, find_first, find_first-update_where, update_where,
}
use mathlib.Core.List.{append-eq-nil_iff}
use ushnotice.Domain.Models.{Event, EventProcessing}
use ushnotice.Store.{World}
use ushnotice.Store.Events
use ushnotice.Store.Processings
use ushnotice.Store.Events.{NewEvent, get_by_event_id, is_real_id, update_event, insert, create}
use ushnotice.Events.Envelope.{EventEnvelope}
use ushnotice.Events.Handler.{EventHandler, Outcome, returned, raised, LeavesRouting}
use ushnotice.Events.Registry.{Registry, resolve}
use ushnotice.Events.Idempotency.{Acquired, conflict, granted, acquire, complete}
use ushnotice.Events.Router.{routed, settle, proceed, run_handler, run_handlers, route}
use ushnotice.Events.Router.Delivery.{finish_routed}

-- the primary key that an event id is found under
unfoldable pub found_pk : List Event → String → Option String
found_pk events id =
    Option.map (λ e. e.id) (find_first (λ e. e.event_id == id || e.id == id) events)

found_pk-update_where :
    (p : Event → Bool) (f : Event → Event) (events : List Event) (id : String)
    → ((e : Event) → (f e).id ≡ e.id)
    → ((e : Event) → (f e).event_id ≡ e.event_id)
    → found_pk (update_where p f events) id ≡ found_pk events id
unfolding found_pk
found_pk-update_where p f events id ids event_ids =
    rw
      (find_first-update_where p (λ e. e.event_id == id || e.id == id) f events
        (λ e. rw (ids e, event_ids e)))
      (elim (Option-cases (find_first (λ e. e.event_id == id || e.id == id) events)) [
        | inl e ↦ rw e
        | inr (x, e) ↦ rw e (elim (Bool-cases (p x)) [ inl y ↦ rw y (rw (ids x)) | inr y ↦ rw y ])
      ])

module _ {E : Type 0} where
  events-acquire : (ev name : String) (w : World E) → (acquire ev name w).1.db.events ≡ w.db.events
  unfolding acquire Processings.create Processings.mark_processing
  events-acquire ev name w = ground arith

  events-settle :
      (h : EventHandler E) (p : EventProcessing) (r : Outcome × World E)
      → (settle h p r).0 ≡ []
      → (settle h p r).1.db.events ≡ r.1.db.events
  unfolding settle complete Processings.mark_completed
  events-settle h p (returned, w) e = refl
  events-settle h p (raised m, w) e = cc

  events-proceed :
      (env : EventEnvelope) (h : EventHandler E) (r : Acquired × World E)
      → LeavesRouting h
      → (proceed env h r).0 ≡ []
      → (proceed env h r).1.db.events ≡ r.1.db.events
  unfolding proceed
  events-proceed env h (conflict, w) l e = refl
  events-proceed env h (granted p, w) l e = events-settle h p (h.handle env w) e ∙ l.events env w

  events-run_handlers :
      (env : EventEnvelope) (pk : String) (hs : List (EventHandler E)) (w : World E)
      → All LeavesRouting hs
      → (run_handlers env pk hs w).0 ≡ []
      → (run_handlers env pk hs w).1.db.events ≡ w.db.events
  unfolding run_handlers run_handler
  events-run_handlers env pk [] w l e = refl
  events-run_handlers env pk (h ∷ hs) w (l, ls) e =
      let (first, rest) = append-eq-nil_iff.0 e in
      events-run_handlers env pk hs (run_handler env pk h w).1 ls rest
      ∙ events-proceed env h (acquire pk h.class_name w) l first
      ∙ events-acquire pk h.class_name w

  -- Delivery leaves the event under the key that it is found under.
  pub found_pk-route :
      (registry : Registry E) (env : EventEnvelope) (event : Event) (w : World E)
      (hs : List (EventHandler E)) (id : String)
      → resolve env.event_type registry ≡ some hs
      → All LeavesRouting hs
      → (route registry env event w).0 ≡ routed
      → found_pk (route registry env event w).1.db.events id ≡ found_pk w.db.events id
  unfolding route
  found_pk-route registry env event w hs id found l e =
      let (none_failed, marked) = finish_routed env event.id _ (rw (found, route) at e) in
      rw (found, route)
        (rw marked (
          unfold Events.mark_processed_by_id update_event in
          found_pk-update_where _ _ _ id (λ x. refl) (λ x. refl)
          ∙ ap (λ events. found_pk events id)
              (events-run_handlers env event.id hs (Events.mark_processing event w) l none_failed)
          ∙ (unfold Events.mark_processing in
              found_pk-update_where _ _ w.db.events id (λ x. refl) (λ x. refl))))
