-- ===== src/Events/Router/Delivery.antt =====
-- `route` when every handler returns, and what a second delivery of the event then does.
use mathlib.Core.List.{append-eq-nil_iff}
use ushnotice.Common.{◌≡◌, refl, ◌∙◌, String, true, some, List, [], ◌∷◌, All}
use ushnotice.Domain.Models.{Event, EventProcessing}
use ushnotice.Store.{Db, World}
use ushnotice.Store.Events
use ushnotice.Store.Events.{update_event}
use ushnotice.Events.Envelope.{EventEnvelope}
use ushnotice.Events.Handler.{EventHandler, Outcome, returned, raised, LeavesRouting}
use ushnotice.Events.Registry.{Registry, resolve}
use ushnotice.Events.Idempotency.{Acquired, conflict, granted, acquire}
use ushnotice.Events.Idempotency.Laws.{
  blocked, acquire_conflict, acquire-blocked, acquire-blocked_other, complete-blocked,
  blocked_of_same, update_event-blocked,
}
use ushnotice.Events.Router.{routed, settle, proceed, run_handler, run_handlers, finish, route}

module _ {E : Type 0} where
  -- every one of the handlers is blocked for the event
  abbrev pub AllBlocked : Db → String → List (EventHandler E) → Type 0
  AllBlocked db pk = All (λ h. blocked db pk h.class_name ≡ true)

  settle-blocked :
      (h : EventHandler E) (p : EventProcessing) (r : Outcome × World E) (pk name : String)
      → (settle h p r).0 ≡ []
      → blocked r.1.db pk name ≡ true
      → blocked (settle h p r).1.db pk name ≡ true
  unfolding settle
  settle-blocked h p (returned, w) pk name e b = complete-blocked w p pk name b
  settle-blocked h p (raised m, w) pk name e b = cc

  proceed-blocked :
      (env : EventEnvelope) (h : EventHandler E) (r : Acquired × World E) (pk name : String)
      → LeavesRouting h
      → (proceed env h r).0 ≡ []
      → blocked r.1.db pk name ≡ true
      → blocked (proceed env h r).1.db pk name ≡ true
  unfolding proceed
  proceed-blocked env h (conflict, w) pk name l e b = b
  proceed-blocked env h (granted p, w) pk name l e b =
      settle-blocked h p (h.handle env w) pk name e
        (blocked_of_same _ _ pk name (l.events env w) (l.processings env w) ∙ b)

  -- What is blocked stays blocked through handlers that report no error.
  run_handlers-blocked :
      (env : EventEnvelope) (pk : String) (hs : List (EventHandler E)) (w : World E) (name : String)
      → All LeavesRouting hs
      → (run_handlers env pk hs w).0 ≡ []
      → blocked w.db pk name ≡ true
      → blocked (run_handlers env pk hs w).1.db pk name ≡ true
  unfolding run_handlers run_handler
  run_handlers-blocked env pk [] w name l e b = b
  run_handlers-blocked env pk (h ∷ hs) w name (l, ls) e b =
      let (first, rest) = append-eq-nil_iff.0 e in
      run_handlers-blocked env pk hs (run_handler env pk h w).1 name ls rest (
        proceed-blocked env h (acquire pk h.class_name w) pk name l first
          (acquire-blocked_other w pk h.class_name name b))

  -- And each of the handlers ends up blocked.
  run_handlers-AllBlocked :
      (env : EventEnvelope) (pk : String) (hs : List (EventHandler E)) (w : World E)
      → All LeavesRouting hs
      → (run_handlers env pk hs w).0 ≡ []
      → AllBlocked (run_handlers env pk hs w).1.db pk hs
  unfolding run_handlers run_handler
  run_handlers-AllBlocked env pk [] w l e = tt
  run_handlers-AllBlocked env pk (h ∷ hs) w (l, ls) e =
      let (first, rest) = append-eq-nil_iff.0 e in
      (
        run_handlers-blocked env pk hs (run_handler env pk h w).1 h.class_name ls rest (
            proceed-blocked env h (acquire pk h.class_name w) pk h.class_name l first
              (acquire-blocked w pk h.class_name)),
        run_handlers-AllBlocked env pk hs (run_handler env pk h w).1 ls rest,
      )

  -- Blocked handlers are skipped: none of them runs.
  run_handlers_skip :
      (env : EventEnvelope) (pk : String) (hs : List (EventHandler E)) (w : World E)
      → AllBlocked w.db pk hs
      → run_handlers env pk hs w ≡ ([], w)
  unfolding run_handlers run_handler proceed
  run_handlers_skip env pk [] w b = refl
  run_handlers_skip env pk (h ∷ hs) w (b, bs) =
      rw (acquire_conflict w pk h.class_name b) (rw (run_handlers_skip env pk hs w bs))

  AllBlocked-update_event :
      (pk : String) (f : Event → Event) (w : World E) (ev : String) (hs : List (EventHandler E))
      → ((e : Event) → (f e).id ≡ e.id)
      → ((e : Event) → (f e).event_id ≡ e.event_id)
      → AllBlocked w.db ev hs
      → AllBlocked (update_event pk f w).db ev hs
  AllBlocked-update_event pk f w ev [] ids event_ids b = tt
  AllBlocked-update_event pk f w ev (h ∷ hs) ids event_ids (b, bs) = (
    update_event-blocked pk f w ev h.class_name ids event_ids ∙ b,
    AllBlocked-update_event pk f w ev hs ids event_ids bs,
  )

  AllBlocked-mark_processed :
      (pk : String) (w : World E) (hs : List (EventHandler E))
      → AllBlocked w.db pk hs
      → AllBlocked (Events.mark_processed_by_id pk w).db pk hs
  unfolding Events.mark_processed_by_id
  AllBlocked-mark_processed pk w hs b =
      AllBlocked-update_event pk _ w pk hs (λ x. refl) (λ x. refl) b

  pub finish_routed :
      (env : EventEnvelope) (pk : String) (r : List String × World E)
      → (finish env pk r).0 ≡ routed
      → (r.0 ≡ []) × ((finish env pk r).1 ≡ Events.mark_processed_by_id pk r.1)
  unfolding finish
  finish_routed env pk ([], w) e = (refl, refl)
  finish_routed env pk (x ∷ xs, w) e = cc

  -- After a route that raised nothing, with handlers that leave the tables events and
  -- event_processings alone, the guard blocks every handler of the event.
  pub route-AllBlocked :
      (registry : Registry E) (env : EventEnvelope) (event : Event) (w : World E)
      (hs : List (EventHandler E))
      → resolve env.event_type registry ≡ some hs
      → All LeavesRouting hs
      → (route registry env event w).0 ≡ routed
      → AllBlocked (route registry env event w).1.db event.id hs
  unfolding route
  route-AllBlocked registry env event w hs found l e =
      let (none_failed, marked) = finish_routed env event.id _ (rw (found, route) at e) in
      rw (found, route)
        (rw marked (
          AllBlocked-mark_processed event.id _ hs
            (run_handlers-AllBlocked env event.id hs _ l none_failed)))

  -- A route whose handlers are all blocked only marks the event's row.
  pub route_skip :
      (registry : Registry E) (env : EventEnvelope) (event : Event) (w : World E)
      (hs : List (EventHandler E))
      → resolve env.event_type registry ≡ some hs
      → AllBlocked w.db event.id hs
      → route registry env event w
        ≡ (routed, Events.mark_processed_by_id event.id (Events.mark_processing event w))
  unfolding route
  route_skip registry env event w hs found b =
      rw (found, route)
        (rw
          (run_handlers_skip env event.id hs (Events.mark_processing event w) (
            unfold Events.mark_processing in
            AllBlocked-update_event event.id _ w event.id hs (λ x. refl) (λ x. refl) b))
          (unfold finish in refl))

  -- If every handler of the type leaves the tables events and event_processings alone and a first
  -- route raised nothing, a second route of the event runs no handler: its world is that of the
  -- first with the event's row marked.
  pub route_twice :
      (registry : Registry E) (env : EventEnvelope) (event : Event) (w : World E)
      (hs : List (EventHandler E))
      → resolve env.event_type registry ≡ some hs
      → All LeavesRouting hs
      → (route registry env event w).0 ≡ routed
      → route registry env event (route registry env event w).1 ≡ (
        routed,
        Events.mark_processed_by_id event.id
            (Events.mark_processing event (route registry env event w).1),
      )
  route_twice registry env event w hs found l e =
      route_skip registry env event (route registry env event w).1 hs found
        (route-AllBlocked registry env event w hs found l e)
