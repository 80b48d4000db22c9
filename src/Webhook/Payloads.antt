-- ===== src/Webhook/Payloads.antt =====
-- What a whole payload leaves of a notification that was read.
use ushnotice.Common.{
  ℕ, ◌≡◌, ◌≢◌, String, ◌==◌, Bool-cases, inl, inr, Option, List, [], ◌∷◌, All, lower, arith,
}
use ushnotice.Store.{Db, World}
use ushnotice.Store.Notifications.{get_by_id}
use ushnotice.Store.Inbound
use ushnotice.Webhook.{
  StatusItem, MessageItem, Change, text_or_empty, process_statuses, process_inbound_message,
  process_messages, process_changes, process_entries, process_payload,
}
use ushnotice.Webhook.Statuses.{IsRead, process_status-IsRead}

-- no status callback of a change is a "failed" one
abbrev pub NoneFailed : Change → Type 0
NoneFailed c = All (λ (item : StatusItem). lower (text_or_empty item.status) ≢ "failed") c.statuses

IsRead-same_notifications :
    (c d : Db) (pk : String) → d.notifications ≡ c.notifications → IsRead c pk → IsRead d pk
unfolding get_by_id
IsRead-same_notifications c d pk same r = record {
  row = r.row;
  found = rw same r.found;
  status = r.status;
}

module _ {E : Type 0} (pk : String) where
  process_statuses-IsRead :
      (items : List StatusItem) (r : ℕ × World E)
      → All (λ (item : StatusItem). lower (text_or_empty item.status) ≢ "failed") items
      → IsRead r.1.db pk
      → IsRead (process_statuses items r).1.db pk
  unfolding process_statuses
  process_statuses-IsRead [] r h i = i
  process_statuses-IsRead (item ∷ items) (n, w) (h, hs) i =
      process_statuses-IsRead items _ hs (process_status-IsRead item w pk h i)

  notifications-process_inbound_message :
      (m : MessageItem) (contacts : List (Option String × Option String)) (phone : Option String)
      (w : World E)
      → (process_inbound_message m contacts phone w).1.db.notifications ≡ w.db.notifications
  unfolding process_inbound_message Inbound.create Inbound.insert
  notifications-process_inbound_message m contacts phone w = ground arith

  process_messages-IsRead :
      (contacts : List (Option String × Option String)) (phone : Option String)
      (ms : List MessageItem) (r : ℕ × World E)
      → IsRead r.1.db pk
      → IsRead (process_messages contacts phone ms r).1.db pk
  unfolding process_messages
  process_messages-IsRead contacts phone [] r i = i
  process_messages-IsRead contacts phone (m ∷ ms) (n, w) i =
      process_messages-IsRead contacts phone ms _ (
        IsRead-same_notifications w.db _ pk
          (notifications-process_inbound_message m contacts phone w) i)

  process_changes-IsRead :
      (cs : List Change) (r : ℕ × ℕ × World E)
      → All NoneFailed cs
      → IsRead r.2.db pk
      → IsRead (process_changes cs r).2.db pk
  unfolding process_changes
  process_changes-IsRead [] r h i = i
  process_changes-IsRead (c ∷ cs) (statuses, messages, w) (h, hs) i =
      elim (Bool-cases (text_or_empty c.field == "messages")) [
        | inl hit ↦
            rw (hit, process_changes)
              (process_changes-IsRead cs _ hs (
                process_messages-IsRead c.contacts c.phone_number_id c.messages _
                  (process_statuses-IsRead c.statuses (statuses, w) h i)))
        | inr miss ↦
            rw (miss, process_changes) (process_changes-IsRead cs (statuses, messages, w) hs i)
      ]

  process_entries-IsRead :
      (entries : List (List Change)) (r : ℕ × ℕ × World E)
      → All (All NoneFailed) entries
      → IsRead r.2.db pk
      → IsRead (process_entries entries r).2.db pk
  unfolding process_entries
  process_entries-IsRead [] r h i = i
  process_entries-IsRead (changes ∷ entries) r (h, hs) i =
      process_entries-IsRead entries _ hs (process_changes-IsRead changes r h i)

  -- A notification that is READ stays READ through a whole payload of which no status is "failed",
  -- whatever its other statuses, messages and fields are.
  pub process_payload-IsRead :
      (object_type : Option String) (entries : List (List Change)) (w : World E)
      → All (All NoneFailed) entries
      → IsRead w.db pk
      → IsRead (process_payload object_type entries w).1.db pk
  unfolding process_payload
  process_payload-IsRead object_type entries w h i =
      elim (Bool-cases (text_or_empty object_type == "whatsapp_business_account")) [
        | inl ours ↦ rw (ours, process_payload) (process_entries-IsRead entries (0, 0, w) h i)
        | inr other ↦ rw (other, process_payload) i
      ]
