-- ===== src/Webhook/Messages.antt =====
-- Inbound messages are stored once.
use ushnotice.Common.{
  ◌≡◌, String, ◌==◌, ◌||◌, eq_refl, true, false, Option, some, List, inl, inr, find_first,
  Option-cases, Bool-cases,
}
use ushnotice.Domain.Models.{InboundMessage}
use ushnotice.Store.{World}
use ushnotice.Store.Inbound
use ushnotice.Webhook.{MessageItem, new_of, text_or_empty, process_inbound_message}

module _ {E : Type 0} where
  insert-found :
      (n : Inbound.NewInbound) (w : World E)
      → Inbound.get_by_provider_message_id (Inbound.insert n w).1.db n.provider_message_id
        ≡ some (Inbound.insert n w).0
  unfolding Inbound.insert Inbound.get_by_provider_message_id find_first
  insert-found n w = rw (eq_refl n.provider_message_id)

  -- Once stored, a message is found under its id.
  create-found :
      (n : Inbound.NewInbound) (w : World E)
      → Inbound.get_by_provider_message_id (Inbound.create n w).1.db n.provider_message_id
        ≡ some (Inbound.create n w).0
  unfolding Inbound.create
  create-found n w =
      elim (Option-cases (Inbound.get_by_provider_message_id w.db n.provider_message_id)) [
        | inl absent ↦ rw (absent, Inbound.create) (insert-found n w)
        | inr (m, found) ↦ rw (found, Inbound.create) (rw found)
      ]

  create_again :
      (n : Inbound.NewInbound) (w : World E) (m : InboundMessage)
      → Inbound.get_by_provider_message_id w.db n.provider_message_id ≡ some m
      → (Inbound.create n w).1 ≡ w
  unfolding Inbound.create
  create_again n w m found = rw (found, Inbound.create)

  -- Once an inbound message was accepted, another with the same id changes nothing.
  pub process_inbound_message_twice :
      (m again : MessageItem) (contacts contacts' : List (Option String × Option String))
      (phone phone' : Option String) (w : World E)
      → (process_inbound_message m contacts phone w).0 ≡ true
      → text_or_empty again.id ≡ text_or_empty m.id
      → (process_inbound_message again contacts' phone'
          (process_inbound_message m contacts phone w).1).1
        ≡ (process_inbound_message m contacts phone w).1
  unfolding process_inbound_message
  process_inbound_message_twice m again contacts contacts' phone phone' w accepted same =
      elim (Bool-cases (text_or_empty m.id == "" || text_or_empty m.from == "")) [
        | inl bad ↦ cc (refused bad)
        | inr good ↦
            elim (Bool-cases (text_or_empty again.id == "" || text_or_empty again.from == "")) [
              | inl skip ↦ rw (skip, process_inbound_message)
              | inr go ↦
                  rw (go, process_inbound_message)
                    (rw (good, process_inbound_message)
                      (create_again (new_of again contacts' phone') _
                        (Inbound.create (new_of m contacts phone) w).0
                        (rw same (create-found (new_of m contacts phone) w))))
            ]
      ]
    where
      refused :
          text_or_empty m.id == "" || text_or_empty m.from == "" ≡ true
          → (process_inbound_message m contacts phone w).0 ≡ false
      refused bad = rw (bad, process_inbound_message)
