-- ===== src/Notify/Service/Frame.antt =====
-- What a `send` leaves alone: the tables of the router, and what was committed.
use ushnotice.Common.{
  ℕ, zero, suc, ◌+◌, ◌≡◌, refl, ◌∙◌, inl, inr, String, Bool, Bool-cases, Option, none, some, arith,
  List, ◌&&◌, true, false,
}
use ushnotice.Domain.Models.{Event, EventProcessing, Notification}
use ushnotice.Domain.Values.{NotificationRequest}
use ushnotice.Store.{Db, World}
use ushnotice.Store.Attempts
use ushnotice.Store.Notifications
use ushnotice.Notify.Renderer.{Rendered, rendered, render_error}
use ushnotice.Notify.Settings.{Settings, is_email_skipped}
use ushnotice.Notify.Services.{Services}
use ushnotice.Notify.Attempting.{
  call, succeed, record_failure, prepare_retry, give_up, attempt_loop,
}
use ushnotice.Notify.Service.{
  dedup_key, dispatch, after_create, send_impl, claim, release, conclude, continue_send, is_email,
  send,
}

module _ {E : Type 0} where
  -- the events, their processings, and the database as last committed
  abbrev pub core : World E → List Event × List EventProcessing × Db
  core w = (w.db.events, w.db.processings, w.saved)

module _ {E : Type 0} (s : Services E) (settings : Settings) (req : NotificationRequest) where
  core-attempt_loop :
      (provider body : String) (left number : ℕ) (n : Notification) (w : World E)
      → core (attempt_loop s req provider body left number n w).1 ≡ core w
  unfolding attempt_loop call succeed record_failure prepare_retry give_up Attempts.create
      Attempts.mark_success Attempts.mark_failed Notifications.increment_retry
      Notifications.update_status Notifications.add_status_history
  core-attempt_loop provider body zero number n w =
      elim (Bool-cases
        (call s req provider body (Attempts.create n.id provider number w).1).0.success) [
          | inl e ↦ rw (e, attempt_loop) refl
          | inr e ↦ rw (e, attempt_loop) refl
        ]
  core-attempt_loop provider body (suc left) number n w =
      let r = (call s req provider body (Attempts.create n.id provider number w).1).0 in
      elim (Bool-cases r.success) [
        | inl e ↦ rw (e, attempt_loop) refl
        | inr e ↦ elim (Bool-cases r.is_retryable) [
          | inl again ↦
              rw (e, attempt_loop)
                (rw (again, attempt_loop) (core-attempt_loop provider body left (number + 1) _ _))
          | inr never ↦ rw (e, attempt_loop) (rw (never, attempt_loop) refl)
        ]
      ]

  core-dispatch :
      (r : Rendered) (start : Notification × World E)
      → core (dispatch s settings req r start).1 ≡ core start.1
  unfolding dispatch Notifications.update_status Notifications.add_status_history
  core-dispatch (render_error template cause) (n, w) = refl
  core-dispatch (rendered body) (n, w) = core-attempt_loop _ body _ 1 n w

  -- of a row, where there is one
  abbrev KeepsCore : World E → Option (Notification × World E) → Type 0
  KeepsCore v none = Unit
  KeepsCore v (some (n, w)) = core w ≡ core v

  create-KeepsCore :
      (new : Notifications.NewNotification) (w : World E) → KeepsCore w (Notifications.create new w)
  unfolding Notifications.create Notifications.insert Notifications.add_status_history
  create-KeepsCore new w = ground arith

  after_create-KeepsCore :
      (v : World E) (o : Option (Notification × World E))
      → KeepsCore v o
      → KeepsCore v (after_create s settings req o)
  unfolding after_create Notifications.update_status Notifications.add_status_history
  after_create-KeepsCore v none h = tt
  after_create-KeepsCore v (some (n, w)) h = core-dispatch _ _ ∙ h

  core-conclude :
      (k : String) (claimed : Bool) (before : World E) (o : Option (Notification × World E))
      → KeepsCore before o
      → core (conclude s settings k claimed before o).1 ≡ core before
  unfolding conclude release
  core-conclude k claimed before none h = ground arith
  core-conclude k claimed before (some (n, w)) h = ground (arith, h)

  core-send_impl : (w : World E) → KeepsCore w (send_impl s settings req w)
  unfolding send_impl
  core-send_impl w = after_create-KeepsCore w _ (create-KeepsCore _ w)

  core-continue_send :
      (r : Option Bool × World E) → core (continue_send s settings req r).1 ≡ core r.1
  unfolding continue_send
  core-continue_send (some false, w) = refl
  core-continue_send (some true, w) = core-conclude (dedup_key req) true w _ (core-send_impl w)
  core-continue_send (none, w) = core-conclude (dedup_key req) false w _ (core-send_impl w)

  -- send changes neither the events nor their processings, and commits nothing, whatever the
  -- providers and Redis answer.
  pub core-send : (w : World E) → core (send s settings req w).1 ≡ core w
  unfolding send claim
  core-send w = elim (Bool-cases (is_email req.recipient.channel && is_email_skipped settings)) [
    | inl skip ↦ rw (skip, send) refl
    | inr go ↦ rw (go, send) (core-continue_send _)
  ]
