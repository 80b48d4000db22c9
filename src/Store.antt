-- ===== src/Store.antt =====
-- The database as the repositories see it (app/notifications/infrastructure/repositories.py) and
-- the `AsyncSession`: a table is the list of its rows, newest first; `commit` saves the session's
-- view and `rollback` returns to what was saved last. The statements do not fail, but for the
-- foreign key that `NotificationRepository.create` can break.
pub mod Events
pub mod Processings
pub mod Notifications
pub mod Attempts
pub mod Requests
pub mod Inbound
use ushnotice.Common.{ℕ, suc, String, List, []}
use ushnotice.Domain.Models.{
  Event, EventProcessing, Notification, NotificationStatusHistory, NotificationAttempt, ApiRequest,
  InboundMessage,
}

pub record Db : Type 0 where
  pub events : List Event
  pub processings : List EventProcessing
  pub notifications : List Notification
  pub history : List NotificationStatusHistory
  pub attempts : List NotificationAttempt
  pub requests : List ApiRequest
  pub inbound : List InboundMessage

abbrev pub empty_db : Db
empty_db = record {
  events = [];
  processings = [];
  notifications = [];
  history = [];
  attempts = [];
  requests = [];
  inbound = [];
}

-- What a handler can read and change: the session with its last commit, the `uuid4` values still
-- to be drawn, and the world outside (Redis, the providers).
pub record World (E : Type 0) : Type 0 where
  pub db : Db
  pub saved : Db
  pub uuids : ℕ → String
  pub env : E

module _ {E : Type 0} where
  -- `_uuid`: the next of the drawn values
  unfoldable pub uuid4 : World E → String × World E
  uuid4 w = (w.uuids 0, record w { uuids = λ n. w.uuids (suc n) })

  unfoldable pub commit : World E → World E
  commit w = record w { saved = w.db }

  unfoldable pub rollback : World E → World E
  rollback w = record w { db = w.saved }

  -- a statement that changes the session's view
  abbrev pub on_db : (Db → Db) → World E → World E
  on_db f w = record w { db = f w.db }
