-- ===== src/Notify/Attempting/Laws.antt =====
-- What the loop of attempts leaves behind.
use mathlib.Core.List.{head?}
use ushnotice.Common.{
  ℕ, zero, suc, ◌+◌, ◌≡◌, refl, ◌∷◌, ◌⊎◌, inl, inr, String, eq_refl, false, some, List, arith,
  update_where, Bool-cases,
}
use ushnotice.Domain.Enums.{NotificationStatus, AttemptStatus}
use ushnotice.Domain.Models.{Notification, NotificationAttempt}
use ushnotice.Domain.Values.{DeliveryResult, NotificationRequest}
use ushnotice.Store.{World}
use ushnotice.Store.Attempts
use ushnotice.Store.Notifications
use ushnotice.Notify.Services.{Services}
use ushnotice.Notify.Attempting.{
  response_dict, call, succeed, record_failure, prepare_retry, give_up, attempt_loop,
}

-- the row of an attempt after its outcome
abbrev accepted_row : NotificationAttempt → DeliveryResult → NotificationAttempt
accepted_row a r = record a {
  status = AttemptStatus.success;
  provider_message_id = r.provider_message_id;
  provider_response = some (response_dict r.raw_response);
}

abbrev refused_row : NotificationAttempt → DeliveryResult → NotificationAttempt
refused_row a r = record a {
  status = AttemptStatus.failed;
  error_code = r.error_code;
  error_message = r.error_message;
  provider_response = some (response_dict r.raw_response);
  is_retryable = r.is_retryable;
}

module _ {E : Type 0} (s : Services E) (req : NotificationRequest) (provider body : String) where
  -- How the loop ended, as its newest attempt records it.
  pub record Concluded (last : ℕ) (pk : String) (r : Notification × World E) : Type 0 where
    pub attempt : NotificationAttempt
    pub newest : head? r.1.db.attempts ≡ some attempt
    pub owner : attempt.notification_id ≡ pk
    pub outcome :
        (r.0.status ≡ NotificationStatus.sent) × (attempt.status ≡ AttemptStatus.success)
        ⊎ (r.0.status ≡ NotificationStatus.failed)
          × (attempt.status ≡ AttemptStatus.failed)
          × ((attempt.is_retryable ≡ false) ⊎ (attempt.attempt_number ≡ last))

  module _ (last : ℕ) (a : NotificationAttempt) (r : DeliveryResult) (n : Notification)
      (w : World E) {rest : List NotificationAttempt} (here : w.db.attempts ≡ a ∷ rest)
      (owner : a.notification_id ≡ n.id) where
    newest-succeed :
        head? (succeed s req provider body a r n w).1.db.attempts ≡ some (accepted_row a r)
    unfolding succeed Attempts.mark_success Notifications.update_status
        Notifications.add_status_history update_where
    newest-succeed = rw here (rw (eq_refl a.id))

    succeed-Concluded : Concluded last n.id (succeed s req provider body a r n w)
    unfolding succeed Notifications.update_status
    succeed-Concluded = record {
      attempt = accepted_row a r;
      newest = newest-succeed;
      owner = owner;
      outcome = inl (refl, refl);
    }

    newest-record_failure :
        head? (record_failure s req provider body a r w).db.attempts ≡ some (refused_row a r)
    unfolding record_failure Attempts.mark_failed update_where
    newest-record_failure = rw here (rw (eq_refl a.id))

    give_up-Concluded :
        (number : ℕ)
        → (r.is_retryable ≡ false) ⊎ (a.attempt_number ≡ last)
        → Concluded last n.id
            (give_up s req provider body number r n (record_failure s req provider body a r w))
    unfolding give_up Notifications.update_status Notifications.add_status_history
    give_up-Concluded number why = record {
      attempt = refused_row a r;
      newest = newest-record_failure;
      owner = owner;
      outcome = inr (refl, refl, why);
    }

  -- A retry keeps the notification's id, and takes one attempt off what is left.
  retried-Concluded :
      (number left : ℕ) (r : DeliveryResult) (n : Notification) (w : World E)
      {end : Notification × World E}
      → Concluded (number + 1 + left) (prepare_retry s req provider body number r n w).0.id end
      → Concluded (number + suc left) n.id end
  unfolding prepare_retry Notifications.update_status Notifications.increment_retry
  retried-Concluded number left r n w c = record {
    attempt = c.attempt;
    newest = c.newest;
    owner = c.owner;
    outcome = ground (arith, c.outcome);
  }

  -- The loop over the attempts ends with SENT and a successful newest attempt, or with FAILED and a
  -- failed newest attempt that either was not retryable or had the last number; the newest attempt
  -- belongs to the notification.
  pub attempt_loop-Concluded :
      (left number : ℕ) (n : Notification) (w : World E)
      → Concluded (number + left) n.id (attempt_loop s req provider body left number n w)
  unfolding attempt_loop call Attempts.create
  attempt_loop-Concluded zero number n w =
      let a = (Attempts.create n.id provider number w).0 in
      let w₁ = (Attempts.create n.id provider number w).1 in
      let (r, w₂) = call s req provider body w₁ in
      elim (Bool-cases r.success) [
        | inl e ↦ rw (e, attempt_loop) (succeed-Concluded (number + 0) a r n w₂ refl refl)
        | inr e ↦
            rw (e, attempt_loop)
              (give_up-Concluded (number + 0) a r n w₂ refl refl number (inr (omega arith)))
      ]
  attempt_loop-Concluded (suc left) number n w =
      let a = (Attempts.create n.id provider number w).0 in
      let w₁ = (Attempts.create n.id provider number w).1 in
      let (r, w₂) = call s req provider body w₁ in
      let last = number + suc left in
      elim (Bool-cases r.success) [
        | inl e ↦ rw (e, attempt_loop) (succeed-Concluded last a r n w₂ refl refl)
        | inr e ↦ elim (Bool-cases r.is_retryable) [
          | inl again ↦
              rw (e, attempt_loop)
                (rw (again, attempt_loop)
                  (retried-Concluded number left r n _
                    (attempt_loop-Concluded left (number + 1) _ _)))
          | inr never ↦
              rw (e, attempt_loop)
                (rw (never, attempt_loop)
                  (give_up-Concluded last a r n w₂ refl refl number (inl never)))
        ]
      ]
