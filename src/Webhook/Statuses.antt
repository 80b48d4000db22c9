-- ===== src/Webhook/Statuses.antt =====
-- What a delivery callback does to a notification that was read.
use mathlib.Core.Option
use ushnotice.Common.{
  ◌≡◌, ◌≢◌, refl, sym, ap, ◌∙◌, String, ◌==◌, eq_iff, true, false, Option, some, ◌⊎◌, arith, inl,
  inr, Bool-cases, Option-cases, find_first-update_where_on, find_first_sound, if◌then◌else◌, lower,
  ◌||◌,
}
use ushnotice.Domain.Enums.{NotificationStatus}
use ushnotice.Domain.Models.{Notification, NotificationAttempt}
use ushnotice.Store.{Db, World}
use ushnotice.Store.Attempts
use ushnotice.Store.Notifications
use ushnotice.Store.Notifications.{get_by_id, write, update_status}
use ushnotice.Webhook.{
  StatusItem, text_or_empty, is_read, is_unsent, on_delivered, on_read, on_sent, apply_status,
  process_status,
}

-- The notification is there and was read.
pub record IsRead (db : Db) (pk : String) : Type 0 where
  pub row : Notification
  pub found : get_by_id db pk ≡ some row
  pub status : row.status ≡ NotificationStatus.read

-- A written row takes the place of the row with its id.
get_by_id-write :
    (n : Notification) (db : Db) (pk : String)
    → get_by_id (write n db) pk ≡ Option.map (λ x. if x.id == n.id then n else x) (get_by_id db pk)
unfolding get_by_id
get_by_id-write n db pk =
    find_first-update_where_on (λ x. x.id == n.id) (λ x. x.id == pk) (λ _. n) db.notifications
      (λ x same. ap (λ id. id == pk) (sym ((eq_iff x.id n.id).0 same)))

get_by_id_sound : (db : Db) (pk : String) {m : Notification} → get_by_id db pk ≡ some m → m.id ≡ pk
unfolding get_by_id
get_by_id_sound db pk {m} e =
    (eq_iff m.id pk).0 (find_first_sound (λ x. x.id == pk) db.notifications e)

-- Two rows that are found under ids and have one id are one row.
same_row :
    (db : Db) (p q : String) {m n : Notification}
    → get_by_id db p ≡ some m
    → get_by_id db q ≡ some n
    → m.id ≡ n.id
    → m ≡ n
same_row db p q {m} {n} e f same =
    let p≡q : p ≡ q = sym (get_by_id_sound db p e) ∙ same ∙ get_by_id_sound db q f in
    let e' : get_by_id db q ≡ some m = rw (← p≡q) e in cc

-- the attempts are another table
IsRead-of_same :
    (c d : Db) (pk : String) → c.notifications ≡ d.notifications → IsRead d pk → IsRead c pk
unfolding get_by_id
IsRead-of_same c d pk e r = record { row = r.row; found = rw e r.found; status = r.status }

module _ {E : Type 0} where
  get_by_id-update_status :
      (n : Notification) (st : NotificationStatus) (reason : Option String) (w : World E)
      (pk : String)
      → get_by_id (update_status n st reason w).1.db pk
        ≡ Option.map (λ x. if x.id == n.id then record n { status = st } else x) (get_by_id w.db pk)
  unfolding update_status Notifications.add_status_history
  get_by_id-update_status n st reason w pk =
      unfold get_by_id in get_by_id-write (record n { status = st }) w.db pk

  -- Another notification's status may change, and this one's to READ.
  update_status-IsRead :
      (n : Notification) (st : NotificationStatus) (reason : Option String) (w : World E)
      (pk nid : String)
      → get_by_id w.db nid ≡ some n
      → (is_read st ≡ true) ⊎ (is_read n.status ≡ false)
      → IsRead w.db pk
      → IsRead (update_status n st reason w).1.db pk
  update_status-IsRead n st reason w pk nid here why r = elim (Bool-cases (r.row.id == n.id)) [
    | inl same ↦
        let is_n : r.row ≡ n = same_row w.db pk nid r.found here ((eq_iff _ _).0 same) in
        let n_read : n.status ≡ NotificationStatus.read =
          ap (λ (x : Notification). x.status) (sym is_n) ∙ r.status in
        record {
          row = record n { status = st };
          found = get_by_id-update_status n st reason w pk ∙ rw (r.found, Option.map) (rw same);
          status = ground (arith, n_read, why);
        }
    | inr other ↦ record {
      row = r.row;
      found = get_by_id-update_status n st reason w pk ∙ rw (r.found, Option.map) (rw other);
      status = r.status;
    }
  ]

  module _ (a : NotificationAttempt) (n : Notification) (w : World E) (pk nid : String)
      (here : get_by_id w.db nid ≡ some n) (r : IsRead w.db pk) where
    on_delivered-IsRead : IsRead (on_delivered a n w).db pk
    unfolding on_delivered Attempts.set_status
    on_delivered-IsRead = elim (Bool-cases (is_read n.status)) [
      | inl old ↦ rw (old, on_delivered) (IsRead-of_same _ w.db pk refl r)
      | inr new ↦
          rw (new, on_delivered)
            (IsRead-of_same _ _ pk refl
              (update_status-IsRead n NotificationStatus.delivered _ w pk nid here (inr new) r))
    ]

    on_read-IsRead : IsRead (on_read a n w).db pk
    unfolding on_read Attempts.set_status
    on_read-IsRead =
        IsRead-of_same _ _ pk refl
          (update_status-IsRead n NotificationStatus.read _ w pk nid here (inl refl) r)

    on_sent-IsRead : IsRead (on_sent n w).db pk
    unfolding on_sent
    on_sent-IsRead = elim (Bool-cases (is_unsent n.status)) [
      | inl early ↦
          rw (early, on_sent)
            (update_status-IsRead n NotificationStatus.sent _ w pk nid here
              (inr (ground (arith, early))) r)
      | inr late ↦ rw (late, on_sent) r
    ]

    apply_status-IsRead :
        (name : String) (item : StatusItem)
        → name ≢ "failed"
        → IsRead (apply_status name item a n w).1.db pk
    unfolding apply_status
    apply_status-IsRead name item not_failed = elim (Bool-cases (name == "delivered")) [
      | inl e ↦ rw (e, apply_status) on_delivered-IsRead
      | inr e ↦ elim (Bool-cases (name == "read")) [
        | inl f ↦ rw (e, apply_status) (rw (f, apply_status) on_read-IsRead)
        | inr f ↦ elim (Bool-cases (name == "failed")) [
          | inl g ↦ absurd (not_failed ((eq_iff _ _).0 g))
          | inr g ↦ elim (Bool-cases (name == "sent")) [
            | inl h ↦
                rw (e, apply_status)
                  (rw (f, apply_status)
                    (rw (g, apply_status) (rw (h, apply_status) on_sent-IsRead)))
            | inr h ↦
                rw (e, apply_status)
                  (rw (f, apply_status) (rw (g, apply_status) (rw (h, apply_status) r)))
          ]
        ]
      ]
    ]

  -- A notification that is READ stays READ through any status callback other than a "failed" one.
  pub process_status-IsRead :
      (item : StatusItem) (w : World E) (pk : String)
      → lower (text_or_empty item.status) ≢ "failed"
      → IsRead w.db pk
      → IsRead (process_status item w).1.db pk
  unfolding process_status
  process_status-IsRead item w pk not_failed r =
      let id = text_or_empty item.id in
      elim (Bool-cases (id == "" || lower (text_or_empty item.status) == "")) [
        | inl bad ↦ rw (bad, process_status) r
        | inr good ↦
            rw (good, process_status)
              (elim (Option-cases (Attempts.get_by_provider_message_id w.db id)) [
                | inl absent ↦ rw absent r
                | inr (a, e) ↦ rw e (elim (Option-cases (get_by_id w.db a.notification_id)) [
                  | inl gone ↦ rw gone r
                  | inr (n, f) ↦
                      rw f (apply_status-IsRead a n w pk a.notification_id f r _ item not_failed)
                ])
              ])
      ]
