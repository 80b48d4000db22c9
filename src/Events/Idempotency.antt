-- ===== src/Events/Idempotency.antt =====
-- `IdempotencyGuard` of app/events/idempotency.py.
pub mod Laws
use ushnotice.Common.{Bool, true, false, String, none, some, if◌then◌else◌}
use ushnotice.Domain.Enums.{EventProcessingStatus}
use ushnotice.Domain.Models.{EventProcessing}
use ushnotice.Store.{World}
use ushnotice.Store.Processings

-- the statuses that are not attempted again
unfoldable pub is_final : EventProcessingStatus → Bool
is_final EventProcessingStatus.completed = true
is_final EventProcessingStatus.processing = true
is_final EventProcessingStatus.skipped = true
is_final _ = false

-- `IdempotencyConflict`, or the record to process under.
pub data Acquired : Type 0 where
  conflict : Acquired
  granted : EventProcessing → Acquired

module _ {E : Type 0} where
  start : EventProcessing → World E → Acquired × World E
  start p w = (granted p, Processings.mark_processing p w)

  unfoldable pub acquire : String → String → World E → Acquired × World E
  unfolding start is_final
  acquire event_id handler_name w = elim (Processings.get w.db event_id handler_name) [
    | some existing ↦ if is_final existing.status then (conflict, w) else start existing w
    | none ↦ let (p, w') = Processings.create event_id handler_name w in start p w'
  ]

  unfoldable pub complete : EventProcessing → World E → World E
  complete p = Processings.mark_completed p

  unfoldable pub fail : EventProcessing → String → World E → World E
  fail p error = Processings.mark_failed p error

  unfoldable pub skip : EventProcessing → World E → World E
  skip p = Processings.mark_skipped p
