-- ===== src/Handlers/Auth/Frame.antt =====
-- What the handlers of accounts leave alone.
use ushnotice.Events.Envelope.{EventEnvelope}
use ushnotice.Handlers.Messages.{Setup, sms_of, email_of}
use ushnotice.Handlers.Messages.Frame.{KeepsCore, then_do-KeepsCore, notify-KeepsCore}
use ushnotice.Handlers.Auth.{
  user_registered, user_verified, password_reset, password_changed, email_verification,
}

module _ {E : Type 0} (u : Setup E) where
  pub user_registered-KeepsCore : (env : EventEnvelope) → KeepsCore (user_registered u env)
  unfolding user_registered
  user_registered-KeepsCore env =
      then_do-KeepsCore _ _ (notify-KeepsCore u (sms_of u env.body) _)
        (notify-KeepsCore u (email_of u env.body) _)

  pub user_verified-KeepsCore : (env : EventEnvelope) → KeepsCore (user_verified u env)
  unfolding user_verified
  user_verified-KeepsCore env =
      then_do-KeepsCore _ _ (notify-KeepsCore u (sms_of u env.body) _)
        (notify-KeepsCore u (email_of u env.body) _)

  pub password_reset-KeepsCore : (env : EventEnvelope) → KeepsCore (password_reset u env)
  unfolding password_reset
  password_reset-KeepsCore env =
      then_do-KeepsCore _ _ (notify-KeepsCore u (sms_of u env.body) _)
        (notify-KeepsCore u (email_of u env.body) _)

  pub password_changed-KeepsCore : (env : EventEnvelope) → KeepsCore (password_changed u env)
  unfolding password_changed
  password_changed-KeepsCore env =
      then_do-KeepsCore _ _ (notify-KeepsCore u (sms_of u env.body) _)
        (notify-KeepsCore u (email_of u env.body) _)

  pub email_verification-KeepsCore : (env : EventEnvelope) → KeepsCore (email_verification u env)
  unfolding email_verification
  email_verification-KeepsCore env = notify-KeepsCore u (email_of u env.body) _
