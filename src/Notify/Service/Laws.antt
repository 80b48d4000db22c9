-- ===== src/Notify/Service/Laws.antt =====
-- A message goes out at most once for a key, and a failed one may be sent again.
use ushnotice.Common.{
  ◌≡◌, refl, ap, subst, ◌∙◌, inl, inr, String, eq_refl, Bool, true, false, ◌&&◌, Option, none, some,
  arith, Bool-cases,
}
use ushnotice.Domain.Enums.{NotificationStatus}
use ushnotice.Domain.Models.{Notification}
use ushnotice.Domain.Values.{NotificationRequest}
use ushnotice.Store.{World}
use ushnotice.Store.Notifications
use ushnotice.Notify.Renderer.{Rendered, rendered, render_error}
use ushnotice.Notify.Settings.{Settings, is_email_skipped}
use ushnotice.Notify.Services.{Services, KeepsKeys}
use ushnotice.Notify.Attempting.Bounds.{held-attempt_loop}
use ushnotice.Notify.Service.{
  Sent, unpersisted, persisted, integrity_error, dedup_key, dispatch, after_create, send_impl,
  claim, release, is_out, conclude, continue_send, is_email, send,
}

module _ {E : Type 0} (s : Services E) (settings : Settings) (keys : KeepsKeys s) where
  abbrev held_in : String → World E → Bool
  held_in k w = keys.held k w.env

  held-dispatch :
      (k : String) (req : NotificationRequest) (r : Rendered) (start : Notification × World E)
      → held_in k (dispatch s settings req r start).1 ≡ held_in k start.1
  unfolding dispatch Notifications.update_status Notifications.add_status_history
  held-dispatch k req (render_error template cause) (n, w) = refl
  held-dispatch k req (rendered body) (n, w) = held-attempt_loop s req _ body keys k _ 1 n w

  -- a row of the given state of the key, where there is a row
  abbrev Keeps : String → Bool → Option (Notification × World E) → Type 0
  Keeps k b none = Unit
  Keeps k b (some (n, w)) = held_in k w ≡ b

  create-Keeps :
      (k : String) (new : Notifications.NewNotification) (w : World E)
      → Keeps k (held_in k w) (Notifications.create new w)
  unfolding Notifications.create Notifications.insert Notifications.add_status_history
  create-Keeps k new w = ground arith

  after_create-Keeps :
      (k : String) (b : Bool) (req : NotificationRequest) (o : Option (Notification × World E))
      → Keeps k b o
      → Keeps k b (after_create s settings req o)
  unfolding after_create Notifications.update_status Notifications.add_status_history
  after_create-Keeps k b req none h = tt
  after_create-Keeps k b req (some (n, w)) h = held-dispatch k req _ _ ∙ h

  -- What the key's state says of how `send` ended.
  abbrev pub Claims : String → Sent × World E → Type 0
  Claims k (unpersisted _ _, w) = Unit
  Claims k (persisted n, w) = held_in k w ≡ is_out n.status
  Claims k (integrity_error, w) = held_in k w ≡ false

  conclude-Claims :
      (k : String) (before : World E) (o : Option (Notification × World E))
      → Keeps k true o
      → Claims k (conclude s settings k true before o)
  unfolding conclude release
  conclude-Claims k before none h = keys.held-delete k k before.env ∙ rw (eq_refl k)
  conclude-Claims k before (some (n, w)) h = elim (Bool-cases (is_out n.status)) [
    | inl out ↦ rw (out, h)
    | inr kept ↦ rw kept (keys.held-delete k k w.env ∙ rw (eq_refl k))
  ]

  -- the claim of a free key
  claim_free :
      (k : String) (w : World E)
      → held_in k w ≡ false
      → ((claim s settings k w).0 ≡ some true) × (held_in k (claim s settings k w).1 ≡ true)
  unfolding claim
  claim_free k w free = (keys.set_nx_new k w.env free, keys.held-set_nx k k w.env ∙ rw (eq_refl k))

  claim_held :
      (k : String) (w : World E) → held_in k w ≡ true → claim s settings k w ≡ (some false, w)
  unfolding claim
  claim_held k w held = rw (keys.set_nx_held k w.env held)

  send_impl-Keeps :
      (k : String) (req : NotificationRequest) (w : World E)
      → Keeps k (held_in k w) (send_impl s settings req w)
  unfolding send_impl
  send_impl-Keeps k req w = after_create-Keeps k (held_in k w) req _ (create-Keeps k _ w)

  continue_send-Claims :
      (req : NotificationRequest) (r : Option Bool × World E)
      → r.0 ≡ some true
      → held_in (dedup_key req) r.1 ≡ true
      → Claims (dedup_key req) (continue_send s settings req r)
  unfolding continue_send
  continue_send-Claims req (some true, w) e h =
      conclude-Claims (dedup_key req) w (send_impl s settings req w) (
        subst (λ b. Keeps (dedup_key req) b (send_impl s settings req w)) h
          (send_impl-Keeps (dedup_key req) req w))
  continue_send-Claims req (some false, w) e h = cc
  continue_send-Claims req (none, w) e h = cc

  -- With a Redis that keeps its keys and providers that do not touch them, after send the key is
  -- held exactly if the row that came of it is SENT or DELIVERED, and free if the insertion of the
  -- row failed.
  pub send-Claims :
      (req : NotificationRequest) (w : World E) → Claims (dedup_key req) (send s settings req w)
  unfolding send
  send-Claims req w =
      elim (Bool-cases (is_email req.recipient.channel && is_email_skipped settings)) [
        | inl skip ↦ rw (skip, send) tt
        | inr go ↦
            rw (go, send)
              (elim (Bool-cases (held_in (dedup_key req) w)) [
                | inl held ↦ rw (claim_held (dedup_key req) w held) (unfold continue_send in tt)
                | inr free ↦
                    let (claimed, now_held) = claim_free (dedup_key req) w free in
                    continue_send-Claims req _ claimed now_held
              ])
      ]

  -- With a Redis that keeps its keys and providers that do not touch them, while the key is held
  -- and email is not switched off for the request, send answers SENT and changes nothing.
  pub send_held :
      (req : NotificationRequest) (w : World E)
      → is_email req.recipient.channel && is_email_skipped settings ≡ false
      → held_in (dedup_key req) w ≡ true
      → send s settings req w ≡ (unpersisted req NotificationStatus.sent, w)
  unfolding send continue_send
  send_held req w go held = rw (go, send) (rw (claim_held (dedup_key req) w held))

  held_after :
      (k : String) (r : Sent × World E) (later : World E) (n : Notification)
      → Claims k r
      → r.0 ≡ persisted n
      → n.status ≡ NotificationStatus.sent
      → later.env ≡ r.1.env
      → held_in k later ≡ true
  held_after k (persisted m, v) later n claims row out env =
      let same : m ≡ n = cc in
      ap (keys.held k) env ∙ claims ∙ ap is_out (ap (λ (x : Notification). x.status) same ∙ out)
  held_after k (unpersisted _ _, v) later n claims row out env = cc
  held_after k (integrity_error, v) later n claims row out env = cc

  -- With a Redis that keeps its keys and providers that do not touch them, once a send ended with a
  -- row in status SENT, a send with the same key that finds the world outside as the first left it,
  -- whatever the database is then, and for which email is not switched off, answers SENT and
  -- changes nothing.
  pub send_once :
      (req again : NotificationRequest) (w later : World E) (n : Notification)
      → (send s settings req w).0 ≡ persisted n
      → n.status ≡ NotificationStatus.sent
      → later.env ≡ (send s settings req w).1.env
      → dedup_key again ≡ dedup_key req
      → is_email again.recipient.channel && is_email_skipped settings ≡ false
      → send s settings again later ≡ (unpersisted again NotificationStatus.sent, later)
  send_once req again w later n row out env same go =
      send_held again later go
        (rw same (held_after (dedup_key req) _ later n (send-Claims req w) row out env))
