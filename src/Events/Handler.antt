-- ===== src/Events/Handler.antt =====
-- The `EventHandler` protocol of app/events/handlers/base.py: a handler is its declared event type,
-- the name of its class and its coroutine, which returns or raises.
use ushnotice.Common.{String, ◌≡◌}
use ushnotice.Store.{World}
use ushnotice.Events.Envelope.{EventEnvelope}

pub data Outcome : Type 0 where
  returned : Outcome
  raised : String → Outcome

pub record EventHandler (E : Type 0) : Type 0 where
  pub event_type : String
  pub class_name : String
  pub handle : EventEnvelope → World E → Outcome × World E

module _ {E : Type 0} where
  -- A handler that never commits the session it is lent.
  pub record LeavesCommits (h : EventHandler E) : Type 0 where
    pub saved : (env : EventEnvelope) (w : World E) → (h.handle env w).1.saved ≡ w.saved

  -- A handler that leaves the tables of the router alone.
  pub record LeavesRouting (h : EventHandler E) : Type 0 where
    pub events : (env : EventEnvelope) (w : World E) → (h.handle env w).1.db.events ≡ w.db.events
    pub processings :
        (env : EventEnvelope) (w : World E) → (h.handle env w).1.db.processings ≡ w.db.processings
