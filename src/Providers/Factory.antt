-- ===== src/Providers/Factory.antt =====
-- app/providers/factory.py: one provider for each channel, made at its first use and kept until a
-- reset. A provider is known here by its class.
pub mod Laws
use ushnotice.Common.{String, ◌==◌, ◌||◌, lower, Option, none, some, if◌then◌else◌}
use ushnotice.Notify.Settings.{Settings, is_email_skipped}

pub data SmsProvider : Type 0 where
  kwtsms : SmsProvider
  twilio : SmsProvider
  stub_sms : SmsProvider

pub data WhatsAppProvider : Type 0 where
  meta : WhatsAppProvider
  stub_whatsapp : WhatsAppProvider

pub data EmailProvider : Type 0 where
  smtp : EmailProvider
  stub_email : EmailProvider

-- the module's globals
pub record Singletons : Type 0 where
  pub sms_provider : Option SmsProvider
  pub whatsapp_provider : Option WhatsAppProvider
  pub email_provider : Option EmailProvider

-- what is kept, or else what is made
unfoldable pub kept_or : {A : Type 0} → Option A → A → A
kept_or none made = made
kept_or (some kept) made = kept

unfoldable pub new_sms_provider : Settings → SmsProvider
new_sms_provider settings =
    if settings.sms_provider == "kwtsms"
    then kwtsms
    else if settings.sms_provider == "twilio"
    then twilio
    else stub_sms

unfoldable pub get_sms_provider : Settings → Singletons → SmsProvider × Singletons
unfolding kept_or new_sms_provider
get_sms_provider settings g =
    let p = kept_or g.sms_provider (new_sms_provider settings) in
    (p, record g { sms_provider = some p })

unfoldable pub get_whatsapp_provider : Settings → Singletons → WhatsAppProvider × Singletons
unfolding kept_or
get_whatsapp_provider settings g =
    let made = if settings.whatsapp_provider == "meta" then meta else stub_whatsapp in
    let p = kept_or g.whatsapp_provider made in (p, record g { whatsapp_provider = some p })

unfoldable pub new_email_provider : Settings → EmailProvider
unfolding is_email_skipped
new_email_provider settings =
    let name = lower settings.email_provider in
    if is_email_skipped settings
    then stub_email
    else if name == "smtp" || name == "gmail"
    then smtp
    else stub_email

unfoldable pub get_email_provider : Settings → Singletons → EmailProvider × Singletons
unfolding kept_or new_email_provider
get_email_provider settings g =
    let p = kept_or g.email_provider (new_email_provider settings) in
    (p, record g { email_provider = some p })

unfoldable pub reset_providers : Singletons → Singletons
reset_providers g = record { sms_provider = none; whatsapp_provider = none; email_provider = none }
