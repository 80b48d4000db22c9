-- ===== src/Notify/Settings.antt =====
-- The settings of app/core/config.py that the notification service reads. A negative number of
-- retries, with which nothing is ever attempted, is not represented.
use ushnotice.Common.{ℕ, String, Bool, ◌||◌, not}

pub record Settings : Type 0 where
  pub sms_provider : String
  pub whatsapp_provider : String
  pub email_provider : String
  pub email_enabled : Bool
  pub skip_sending_emial : Bool
  pub skip_sending_email : Bool
  pub notification_max_retries : ℕ

-- the test that switches email off
unfoldable pub is_email_skipped : Settings → Bool
is_email_skipped s = s.skip_sending_emial || s.skip_sending_email || not s.email_enabled
