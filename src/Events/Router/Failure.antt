-- ===== src/Events/Router/Failure.antt =====
-- `route` when a handler raises: what the loop wrote is undone.
use ushnotice.Common.{◌≡◌, refl, ap, ◌∙◌, String, some, List, [], ◌∷◌, All, arith}
use ushnotice.Domain.Models.{Event, EventProcessing}
use ushnotice.Store.{World, commit, rollback}
use ushnotice.Store.Events
use ushnotice.Store.Processings
use ushnotice.Events.Envelope.{EventEnvelope}
use ushnotice.Events.Handler.{EventHandler, Outcome, returned, raised, LeavesCommits}
use ushnotice.Events.Registry.{Registry, resolve}
use ushnotice.Events.Idempotency.{Acquired, conflict, granted, acquire, complete, fail}
use ushnotice.Events.Idempotency.Laws.{blocked, update_event-blocked}
use ushnotice.Events.Router.{
  failed, settle, proceed, run_handler, run_handlers, finish, join, route,
}

module _ {E : Type 0} where
  saved-acquire : (ev name : String) (w : World E) → (acquire ev name w).1.saved ≡ w.saved
  unfolding acquire Processings.create Processings.mark_processing
  saved-acquire ev name w = ground arith

  saved-settle :
      (h : EventHandler E) (p : EventProcessing) (r : Outcome × World E)
      → (settle h p r).1.saved ≡ r.1.saved
  unfolding settle complete fail rollback Processings.mark_completed Processings.mark_failed
  saved-settle h p (returned, w) = refl
  saved-settle h p (raised m, w) = refl

  saved-proceed :
      (env : EventEnvelope) (h : EventHandler E) (r : Acquired × World E)
      → LeavesCommits h
      → (proceed env h r).1.saved ≡ r.1.saved
  unfolding proceed
  saved-proceed env h (conflict, w) c = refl
  saved-proceed env h (granted p, w) c = saved-settle h p (h.handle env w) ∙ c.saved env w

  saved-run_handlers :
      (env : EventEnvelope) (pk : String) (hs : List (EventHandler E)) (w : World E)
      → All LeavesCommits hs
      → (run_handlers env pk hs w).1.saved ≡ w.saved
  unfolding run_handlers run_handler
  saved-run_handlers env pk [] w c = refl
  saved-run_handlers env pk (h ∷ hs) w (c, cs) =
      saved-run_handlers env pk hs (run_handler env pk h w).1 cs
      ∙ saved-proceed env h (acquire pk h.class_name w) c
      ∙ saved-acquire pk h.class_name w

  -- What `route` leaves of a failed delivery: the database as it was last committed, but for the
  -- mark on the event's row, and that is committed.
  pub record OnlyMarks (pk : String) (w w' : World E) : Type 0 where
    pub error : String
    pub marked : w'.db ≡ (Events.mark_failed_by_id pk error (rollback w)).db
    pub committed : w'.saved ≡ w'.db

  finish-OnlyMarks :
      (env : EventEnvelope) (pk : String) (r : List String × World E) (w : World E) (msg : String)
      → r.1.saved ≡ w.saved
      → (finish env pk r).0 ≡ failed msg
      → OnlyMarks pk w (finish env pk r).1
  unfolding finish commit rollback Events.mark_failed_by_id
  finish-OnlyMarks env pk ([], w') w msg s e = cc
  finish-OnlyMarks env pk (e ∷ es, w') w msg s _ = record {
    error = join (e ∷ es);
    marked = rw s;
    committed = refl;
  }

  saved-mark_processing :
      (event : Event) (w : World E) → (Events.mark_processing event w).saved ≡ w.saved
  unfolding Events.mark_processing
  saved-mark_processing event w = refl

  -- If route raises because handlers failed and no handler commits, the database is as it was last
  -- committed but for the failure mark on the event's row, and this is committed.
  pub route-OnlyMarks :
      (registry : Registry E) (env : EventEnvelope) (event : Event) (w : World E)
      (hs : List (EventHandler E)) (msg : String)
      → resolve env.event_type registry ≡ some hs
      → All LeavesCommits hs
      → (route registry env event w).0 ≡ failed msg
      → OnlyMarks event.id w (route registry env event w).1
  unfolding route
  route-OnlyMarks registry env event w hs msg found c e =
      rw (found, route)
        (finish-OnlyMarks env event.id _ w msg
          (saved-run_handlers env event.id hs (Events.mark_processing event w) c
            ∙ saved-mark_processing event w)
          (rw (found, route) at e))

  OnlyMarks-blocked :
      (pk name : String) (w w' : World E)
      → OnlyMarks pk w w'
      → blocked w'.db pk name ≡ blocked w.saved pk name
  unfolding Events.mark_failed_by_id rollback
  OnlyMarks-blocked pk name w w' m =
      ap (λ db. blocked db pk name) m.marked
      ∙ update_event-blocked pk _ (rollback w) pk name (λ x. refl) (λ x. refl)

  -- If route raises because handlers failed and no handler commits, the guard then blocks a handler
  -- for the event exactly if it did when the database was last committed, whether or not the
  -- handler completed in the failed delivery.
  pub route_failed-blocked :
      (registry : Registry E) (env : EventEnvelope) (event : Event) (w : World E)
      (hs : List (EventHandler E)) (msg name : String)
      → resolve env.event_type registry ≡ some hs
      → All LeavesCommits hs
      → (route registry env event w).0 ≡ failed msg
      → blocked (route registry env event w).1.db event.id name ≡ blocked w.saved event.id name
  route_failed-blocked registry env event w hs msg name found c e =
      OnlyMarks-blocked event.id name w _ (route-OnlyMarks registry env event w hs msg found c e)
