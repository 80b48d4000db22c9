-- ===== src/Events/Consumer/Laws.antt =====
-- What one message leaves behind in the database, and the branches of the deletion.
use ushnotice.Common.{◌≡◌, ◌⊎◌, inl, inr, refl, sym, ◌∙◌, String, ◌==◌, false, some, arith}
use ushnotice.Domain.Models.{Event}
use ushnotice.Store.{World, rollback}
use ushnotice.Events.Registry.{Registry}
use ushnotice.Events.Processor.{
  Platform, Processed, SqsIds, stored, validation_error, routing_error, other_error,
  process_raw_message,
}
use ushnotice.Events.Processor.Laws.{process_raw_message-IsClean}
use ushnotice.Events.Consumer.{SqsMessage, acknowledge, process_and_delete}

abbrev pub ids_of : SqsMessage → SqsIds
ids_of m = record { message_id = some m.message_id; receipt_handle = some m.receipt_handle }

module _ {E : Type 0} (p : Platform) (delete : String → E → E) where
  db-acknowledge :
      (receipt : String) (r : Processed × World E) → (acknowledge p delete receipt r).db ≡ r.1.db
  unfolding acknowledge
  db-acknowledge receipt (stored event, w) = ground arith
  db-acknowledge receipt (validation_error _, w) = refl
  db-acknowledge receipt (routing_error _, w) = refl
  db-acknowledge receipt (other_error, w) = refl

  pub saved-acknowledge :
      (receipt : String) (r : Processed × World E)
      → (acknowledge p delete receipt r).saved ≡ r.1.saved
  unfolding acknowledge
  saved-acknowledge receipt (stored event, w) = ground arith
  saved-acknowledge receipt (validation_error _, w) = refl
  saved-acknowledge receipt (routing_error _, w) = refl
  saved-acknowledge receipt (other_error, w) = refl

  -- Without a stored event the world outside is left alone.
  pub acknowledge_cases :
      (receipt : String) (r : Processed × World E)
      → ((acknowledge p delete receipt r).env ≡ r.1.env) ⊎ ((e : Event) × (r.0 ≡ stored e))
  unfolding acknowledge
  acknowledge_cases receipt (stored event, w) = inr (event, refl)
  acknowledge_cases receipt (validation_error _, w) = inl refl
  acknowledge_cases receipt (routing_error _, w) = inl refl
  acknowledge_cases receipt (other_error, w) = inl refl

  pub acknowledge_deleted :
      (receipt : String) (r : Processed × World E) (e : Event)
      → receipt == "" ≡ false
      → r.0 ≡ stored e
      → (acknowledge p delete receipt r).env ≡ delete receipt r.1.env
  unfolding acknowledge
  acknowledge_deleted receipt (stored event, w) e h s = rw h
  acknowledge_deleted receipt (validation_error _, w) e h s = cc
  acknowledge_deleted receipt (routing_error _, w) e h s = cc
  acknowledge_deleted receipt (other_error, w) e h s = cc

  -- The end of the session of a message drops nothing: the database afterwards is the one that
  -- process_raw_message, begun on what was committed, left.
  pub db-process_and_delete :
      (registry : Registry E) (m : SqsMessage) (w : World E)
      → (process_and_delete p delete registry m w).db
        ≡ (process_raw_message p registry m.body (ids_of m) (rollback w)).1.db
  unfolding process_and_delete
  db-process_and_delete registry m w =
      db-acknowledge m.receipt_handle _
      ∙ (unfold rollback in
          sym (process_raw_message-IsClean p registry m.body (ids_of m) (rollback w) refl))
