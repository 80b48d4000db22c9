-- ===== src/Events/Consumer/Redelivery.antt =====
-- Messages that leave the queue, and messages that come again although they did.
use ushnotice.Common.{
  ◌≡◌, refl, sym, ap, subst, ◌∙◌, ◌⊎◌, inl, inr, String, ◌==◌, true, false, some, List, All,
}
use ushnotice.Domain.Models.{Event}
use ushnotice.Store.{World, Db, rollback}
use ushnotice.Store.Events.{is_real_id}
use ushnotice.Events.Envelope.{EventEnvelope}
use ushnotice.Events.Handler.{EventHandler, LeavesRouting}
use ushnotice.Events.Registry.{Registry, resolve}
use ushnotice.Events.Router.Delivery.{AllBlocked}
use ushnotice.Events.Router.Lookup.{found_pk}
use ushnotice.Events.Processor.{Platform, stored, process_raw_message}
use ushnotice.Events.Processor.Laws.{process_valid-IsClean, process_raw_message-IsClean}
use ushnotice.Events.Processor.Redelivery.{Untouched, process_valid_stored, process_valid_skip}
use ushnotice.Events.Processor.Carried.{Carries, process_raw_message-Carries}
use ushnotice.Events.Consumer.{SqsMessage, process_and_delete}
use ushnotice.Events.Consumer.Laws.{
  ids_of, acknowledge_cases, acknowledge_deleted, db-process_and_delete, saved-acknowledge,
}

-- In the committed database the event is found, and each of its handlers is blocked.
pub record Completed {E : Type 0} (env : EventEnvelope) (hs : List (EventHandler E)) (db : Db)
    : Type 0 where
  pub event : Event
  pub found : found_pk db.events env.event_id ≡ some event.id
  pub blocked : AllBlocked db event.id hs

module _ {E : Type 0} (p : Platform) (delete : String → E → E) (registry : Registry E)
    (env : EventEnvelope) (hs : List (EventHandler E)) (real : is_real_id env.event_id ≡ true)
    (known : resolve env.event_type registry ≡ some hs) (leaves : All LeavesRouting hs) where
  saved-process_and_delete :
      (m : SqsMessage) (w : World E)
      → (process_and_delete p delete registry m w).saved
        ≡ (process_raw_message p registry m.body (ids_of m) (rollback w)).1.saved
  unfolding process_and_delete
  saved-process_and_delete m w =
      saved-acknowledge p delete m.receipt_handle _ ∙ (unfold rollback in refl)

  ended :
      (m : SqsMessage) (w : World E)
      → ((process_and_delete p delete registry m w).env
          ≡ (process_raw_message p registry m.body (ids_of m) (rollback w)).1.env)
        ⊎ ((e : Event) × ((process_raw_message p registry m.body (ids_of m) (rollback w)).0
              ≡ stored e))
  unfolding process_and_delete
  ended m w = unfold rollback in acknowledge_cases p delete m.receipt_handle _

  stored-Completed :
      (m : SqsMessage) (w : World E) (event : Event)
      → Carries E p m.body env
      → (process_raw_message p registry m.body (ids_of m) (rollback w)).0 ≡ stored event
      → Completed env hs (process_and_delete p delete registry m w).saved
  stored-Completed m w event c s =
      let same = process_raw_message-Carries p registry m.body env (ids_of m) (rollback w) c in
      let (found, blocked) =
        process_valid_stored registry env (ids_of m) (rollback w) hs event real known leaves
          (ap (λ r. r.0) (sym same) ∙ s) in
      let clean = process_valid-IsClean registry env (ids_of m) (rollback w) in
      subst (Completed env hs)
        (clean ∙ ap (λ r. r.1.saved) (sym same) ∙ sym (saved-process_and_delete m w))
        (record { event = event; found = found; blocked = blocked })

  -- If a message carries a valid event with an id of its own and a type with handlers, all of which
  -- leave the tables events and event_processings alone, then either the world outside the database
  -- is what the processing left, so that the message was not deleted, or the event is found in the
  -- committed database and each of its handlers is blocked for it.
  pub process_and_delete-Completed :
      (m : SqsMessage) (w : World E)
      → Carries E p m.body env
      → ((process_and_delete p delete registry m w).env
          ≡ (process_raw_message p registry m.body (ids_of m) (rollback w)).1.env)
        ⊎ Completed env hs (process_and_delete p delete registry m w).saved
  process_and_delete-Completed m w c = elim (ended m w) [
    | inl kept ↦ inl kept
    | inr (e, s) ↦ inr (stored-Completed m w e c s)
  ]

  -- A message with a completed event, processed on a database that has nothing uncommitted.
  again :
      (m : SqsMessage) (w : World E)
      → Carries E p m.body env
      → (done : Completed env hs w.saved)
      → Untouched done.event
          (rollback w)
          (process_raw_message p registry m.body (ids_of m) (rollback w))
  again m w c done =
      rw (process_raw_message-Carries p registry m.body env (ids_of m) (rollback w) c) (
        process_valid_skip registry env (ids_of m) (rollback w) hs done.event real known
          (unfold rollback in done.found) (unfold rollback in done.blocked))

  env-deleted :
      (m : SqsMessage) (w : World E) (event : Event)
      → m.receipt_handle == "" ≡ false
      → (process_raw_message p registry m.body (ids_of m) (rollback w)).0 ≡ stored event
      → (process_and_delete p delete registry m w).env
        ≡ delete m.receipt_handle
            (process_raw_message p registry m.body (ids_of m) (rollback w)).1.env
  unfolding process_and_delete
  env-deleted m w event full s =
      unfold rollback in acknowledge_deleted p delete m.receipt_handle _ event full s

  -- What comes of a message with a completed event: it is deleted, and nothing else is done.
  repeated :
      (m : SqsMessage) (w : World E)
      → Carries E p m.body env
      → m.receipt_handle == "" ≡ false
      → Completed env hs w.saved
      → let v = process_and_delete p delete registry m w in
        (v.env ≡ delete m.receipt_handle w.env)
        × (v.db.processings ≡ w.saved.processings)
        × (v.db.notifications ≡ w.saved.notifications)
  repeated m w c full done =
      let u = again m w c done in
      let same = db-process_and_delete p delete registry m w in
      (
        env-deleted m w u.again full u.ended
            ∙ (unfold rollback in ap (delete m.receipt_handle) u.env),
        ap (λ (d : Db). d.processings) same ∙ (unfold rollback in u.processings),
        ap (λ (d : Db). d.notifications) same ∙ (unfold rollback in u.notifications),
      )

  clean_after :
      (m : SqsMessage) (w : World E)
      → (process_and_delete p delete registry m w).saved
        ≡ (process_and_delete p delete registry m w).db
  clean_after m w =
      saved-process_and_delete m w
      ∙ sym (
          process_raw_message-IsClean p registry m.body (ids_of m) (rollback w)
            (unfold rollback in refl))
      ∙ sym (db-process_and_delete p delete registry m w)

  -- If a message carries a valid event with an id of its own and a type with handlers, all of which
  -- leave the tables events and event_processings alone, and its processing ended with a stored
  -- event, then a message that comes next with the same event and a receipt handle is deleted, and
  -- apart from that the world outside, the processings and the notifications stay as they are.
  pub process_and_delete_again :
      (m m' : SqsMessage) (w : World E) (event : Event)
      → let v = process_and_delete p delete registry m w in
        let v' = process_and_delete p delete registry m' v in
        Carries E p m.body env
        → Carries E p m'.body env
        → m'.receipt_handle == "" ≡ false
        → (process_raw_message p registry m.body (ids_of m) (rollback w)).0 ≡ stored event
        → (v'.env ≡ delete m'.receipt_handle v.env)
          × (v'.db.processings ≡ v.db.processings)
          × (v'.db.notifications ≡ v.db.notifications)
  process_and_delete_again m m' w event c c' full s =
      let v = process_and_delete p delete registry m w in
      let (sent, rows, messages) = repeated m' v c' full (stored-Completed m w event c s) in
      (
        sent,
        rows ∙ ap (λ (d : Db). d.processings) (clean_after m w),
        messages ∙ ap (λ (d : Db). d.notifications) (clean_after m w),
      )
