-- ===== src/Events/Consumer.antt =====
-- `SQSConsumer._process_and_delete` of app/events/consumer/sqs_consumer.py: one message of a batch.
-- The poll loop, its semaphore and the calls of boto3 are not modelled; messages that are handled at
-- the same time have sessions of their own.
pub mod Laws
pub mod Redelivery
use ushnotice.Common.{String, ◌==◌, some, if◌then◌else◌}
use ushnotice.Store.{World, rollback}
use ushnotice.Events.Registry.{Registry}
use ushnotice.Events.Processor.{
  Platform, Processed, stored, validation_error, routing_error, other_error, process_raw_message,
}

pub record SqsMessage : Type 0 where
  pub receipt_handle : String
  pub message_id : String
  pub body : String

-- `delete` is `delete_message` of the queue, with an exception ignored.
module _ {E : Type 0} (p : Platform) (delete : String → E → E) where
  -- A session of its own: it sees what is committed, and what it leaves uncommitted is dropped.
  abbrev in_session : (World E → Processed × World E) → World E → Processed × World E
  in_session body w = let (r, w') = body (rollback w) in (r, rollback w')

  -- the message is deleted only after it was processed
  unfoldable pub acknowledge : String → Processed × World E → World E
  acknowledge receipt (stored event, w) =
      if receipt == "" then w else record w { env = delete receipt w.env }
  acknowledge receipt (validation_error _, w) = w
  acknowledge receipt (routing_error _, w) = w
  acknowledge receipt (other_error, w) = w

  unfoldable pub process_and_delete : Registry E → SqsMessage → World E → World E
  unfolding acknowledge process_raw_message rollback
  process_and_delete registry m w = acknowledge m.receipt_handle (
      in_session
        (process_raw_message p registry m.body
          (record { message_id = some m.message_id; receipt_handle = some m.receipt_handle }))
        w)
