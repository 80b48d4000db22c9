-- ===== src/Notify/Attempting/Bounds.antt =====
-- How often the loop tries, and that it leaves the claims in Redis alone.
use ushnotice.Common.{
  ℕ, zero, suc, ◌+◌, ◌≤◌, ◌≡◌, refl, ap, ◌∙◌, inl, inr, String, ◌==◌, Bool, arith, length,
  length-update_where, Bool-cases,
}
use ushnotice.Domain.Models.{Notification, NotificationAttempt}
use ushnotice.Domain.Values.{DeliveryResult, NotificationRequest}
use ushnotice.Store.{World}
use ushnotice.Store.Attempts
use ushnotice.Store.Notifications
use ushnotice.Notify.Services.{Services, KeepsKeys}
use ushnotice.Notify.Attempting.{
  call, succeed, record_failure, prepare_retry, give_up, attempt_loop,
}

module _ {E : Type 0} (s : Services E) (req : NotificationRequest) (provider body : String) where
  -- The loop from a notification with `retries` retries and a table of `rows` attempts.
  pub record WithinBounds (left retries rows : ℕ) (r : Notification × World E) : Type 0 where
    pub bounded : r.0.retry_count ≤ retries + left
    pub recorded : length r.1.db.attempts + retries ≡ rows + 1 + r.0.retry_count

  length-record_failure :
      (a : NotificationAttempt) (r : DeliveryResult) (w : World E)
      → length (record_failure s req provider body a r w).db.attempts ≡ length w.db.attempts
  unfolding record_failure Attempts.mark_failed
  length-record_failure a r w = length-update_where _ _ w.db.attempts

  succeed-WithinBounds :
      (left rows : ℕ) (a : NotificationAttempt) (r : DeliveryResult) (n : Notification)
      (w : World E)
      → length w.db.attempts ≡ rows + 1
      → WithinBounds left n.retry_count rows (succeed s req provider body a r n w)
  unfolding succeed Attempts.mark_success Notifications.update_status
      Notifications.add_status_history
  succeed-WithinBounds left rows a r n w h = record {
    bounded = omega arith;
    recorded = omega (arith, length-update_where (λ b. b.id == a.id) _ w.db.attempts);
  }

  give_up-WithinBounds :
      (left rows number : ℕ) (r : DeliveryResult) (n : Notification) (w : World E)
      → length w.db.attempts ≡ rows + 1
      → WithinBounds left n.retry_count rows (give_up s req provider body number r n w)
  unfolding give_up Notifications.update_status Notifications.add_status_history
  give_up-WithinBounds left rows number r n w h = omega arith

  retry-WithinBounds :
      (left rows number : ℕ) (r : DeliveryResult) (n : Notification) (w : World E)
      {end : Notification × World E}
      → length w.db.attempts ≡ rows + 1
      → (let (n', w') = prepare_retry s req provider body number r n w in
          WithinBounds left n'.retry_count (length w'.db.attempts) end)
      → WithinBounds (suc left) n.retry_count rows end
  unfolding prepare_retry Notifications.update_status Notifications.increment_retry
      Notifications.add_status_history
  retry-WithinBounds left rows number r n w h b = record {
    bounded = omega (arith, b.bounded);
    recorded = omega (arith, b.recorded, h);
  }

  -- The loop adds at most as many retries as attempts were left, and exactly one attempt more than
  -- retries.
  pub attempt_loop-WithinBounds :
      (left number : ℕ) (n : Notification) (w : World E)
      → WithinBounds left n.retry_count
          (length w.db.attempts)
          (attempt_loop s req provider body left number n w)
  unfolding attempt_loop call Attempts.create
  attempt_loop-WithinBounds zero number n w =
      let a = (Attempts.create n.id provider number w).0 in
      let (r, w₂) = call s req provider body (Attempts.create n.id provider number w).1 in
      let rows = length w.db.attempts in
      elim (Bool-cases r.success) [
        | inl e ↦ rw (e, attempt_loop) (succeed-WithinBounds 0 rows a r n w₂ (omega arith))
        | inr e ↦
            rw (e, attempt_loop)
              (give_up-WithinBounds 0 rows number r n _
                (length-record_failure a r w₂ ∙ omega arith))
      ]
  attempt_loop-WithinBounds (suc left) number n w =
      let a = (Attempts.create n.id provider number w).0 in
      let (r, w₂) = call s req provider body (Attempts.create n.id provider number w).1 in
      let rows = length w.db.attempts in
      let w₃ = record_failure s req provider body a r w₂ in
      let h : length w₃.db.attempts ≡ rows + 1 = length-record_failure a r w₂ ∙ omega arith in
      elim (Bool-cases r.success) [
        | inl e ↦ rw (e, attempt_loop) (succeed-WithinBounds (suc left) rows a r n w₂ (omega arith))
        | inr e ↦ elim (Bool-cases r.is_retryable) [
          | inl again ↦
              rw (e, attempt_loop)
                (rw (again, attempt_loop)
                  (retry-WithinBounds left rows number r n w₃ h
                    (attempt_loop-WithinBounds left (number + 1) _ _)))
          | inr never ↦
              rw (e, attempt_loop)
                (rw (never, attempt_loop) (give_up-WithinBounds (suc left) rows number r n w₃ h))
        ]
      ]

  -- The writes to the database leave the world outside alone.
  env-succeed :
      (a : NotificationAttempt) (r : DeliveryResult) (n : Notification) (w : World E)
      → (succeed s req provider body a r n w).1.env ≡ w.env
  unfolding succeed Attempts.mark_success Notifications.update_status
      Notifications.add_status_history
  env-succeed a r n w = refl

  env-give_up :
      (number : ℕ) (a : NotificationAttempt) (r : DeliveryResult) (n : Notification) (w : World E)
      → (give_up s req provider body number r n (record_failure s req provider body a r w)).1.env
        ≡ w.env
  unfolding give_up record_failure Attempts.mark_failed Notifications.update_status
      Notifications.add_status_history
  env-give_up number a r n w = refl

  env-prepare_retry :
      (number : ℕ) (a : NotificationAttempt) (r : DeliveryResult) (n : Notification) (w : World E)
      → (prepare_retry s req provider body number r n
          (record_failure s req provider body a r w)).1.env
        ≡ w.env
  unfolding prepare_retry record_failure Attempts.mark_failed Notifications.increment_retry
      Notifications.update_status Notifications.add_status_history
  env-prepare_retry number a r n w = refl

  module _ (keys : KeepsKeys s) (k : String) where
    abbrev held_in : World E → Bool
    held_in w = keys.held k w.env

    held-call : (w : World E) → held_in (call s req provider body w).1 ≡ held_in w
    unfolding call
    held-call w = keys.held-deliver _ _ _ _ k w.env

    -- No attempt claims or releases a key.
    pub held-attempt_loop :
        (left number : ℕ) (n : Notification) (w : World E)
        → held_in (attempt_loop s req provider body left number n w).1 ≡ held_in w
    unfolding attempt_loop Attempts.create
    held-attempt_loop zero number n w =
        let a = (Attempts.create n.id provider number w).0 in
        let w₁ = (Attempts.create n.id provider number w).1 in
        let (r, w₂) = call s req provider body w₁ in
        elim (Bool-cases r.success) [
          | inl e ↦ rw (e, attempt_loop) (ap (keys.held k) (env-succeed a r n w₂) ∙ held-call w₁)
          | inr e ↦
              rw (e, attempt_loop) (ap (keys.held k) (env-give_up number a r n w₂) ∙ held-call w₁)
        ]
    held-attempt_loop (suc left) number n w =
        let a = (Attempts.create n.id provider number w).0 in
        let w₁ = (Attempts.create n.id provider number w).1 in
        let (r, w₂) = call s req provider body w₁ in
        elim (Bool-cases r.success) [
          | inl e ↦ rw (e, attempt_loop) (ap (keys.held k) (env-succeed a r n w₂) ∙ held-call w₁)
          | inr e ↦ elim (Bool-cases r.is_retryable) [
            | inl again ↦
                rw (e, attempt_loop)
                  (rw (again, attempt_loop)
                    (held-attempt_loop left (number + 1) _ _
                      ∙ ap (keys.held k) (env-prepare_retry number a r n w₂)
                      ∙ held-call w₁))
            | inr never ↦
                rw (e, attempt_loop)
                  (rw (never, attempt_loop)
                    (ap (keys.held k) (env-give_up number a r n w₂) ∙ held-call w₁))
          ]
        ]
