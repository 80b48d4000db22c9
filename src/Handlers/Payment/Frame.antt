-- ===== src/Handlers/Payment/Frame.antt =====
-- What the handlers of payments leave alone.
use ushnotice.Events.Envelope.{EventEnvelope}
use ushnotice.Handlers.Messages.{Setup, sms_of, email_of}
use ushnotice.Handlers.Messages.Frame.{KeepsCore, then_do-KeepsCore, notify-KeepsCore}
use ushnotice.Handlers.Payment.{payment_failed, payment_pending, payment_success}

module _ {E : Type 0} (u : Setup E) where
  pub payment_failed-KeepsCore : (env : EventEnvelope) → KeepsCore (payment_failed u env)
  unfolding payment_failed
  payment_failed-KeepsCore env =
      then_do-KeepsCore _ _ (notify-KeepsCore u (sms_of u env.body) _)
        (notify-KeepsCore u (email_of u env.body) _)

  pub payment_pending-KeepsCore : (env : EventEnvelope) → KeepsCore (payment_pending u env)
  unfolding payment_pending
  payment_pending-KeepsCore env = notify-KeepsCore u (email_of u env.body) _

  pub payment_success-KeepsCore : (env : EventEnvelope) → KeepsCore (payment_success u env)
  unfolding payment_success
  payment_success-KeepsCore env =
      then_do-KeepsCore _ _ (notify-KeepsCore u (sms_of u env.body) _)
        (notify-KeepsCore u (email_of u env.body) _)
