-- ===== src/Providers/Factory/Laws.antt =====
-- The providers are kept until they are reset.
use ushnotice.Common.{◌≡◌, refl, true}
use ushnotice.Notify.Settings.{Settings, is_email_skipped}
use ushnotice.Providers.Factory.{
  Singletons, stub_email, kept_or, new_email_provider, get_sms_provider, get_whatsapp_provider,
  get_email_provider, reset_providers,
}

-- A later use with whatever settings yields the provider of the first, on every channel.
pub get_provider_kept :
    (settings settings' : Settings) (g : Singletons)
    → let email = get_email_provider settings g in
      let whatsapp = get_whatsapp_provider settings email.1 in
      let sms = get_sms_provider settings whatsapp.1 in
      ((get_email_provider settings' sms.1).0 ≡ email.0)
      × ((get_whatsapp_provider settings' sms.1).0 ≡ whatsapp.0)
      × ((get_sms_provider settings' sms.1).0 ≡ sms.0)
unfolding get_email_provider get_whatsapp_provider get_sms_provider kept_or
get_provider_kept settings settings' g = (refl, refl, refl)

-- After a reset, email that is switched off goes to the stub.
pub get_email_provider_skipped :
    (settings : Settings) (g : Singletons)
    → is_email_skipped settings ≡ true
    → (get_email_provider settings (reset_providers g)).0 ≡ stub_email
unfolding get_email_provider reset_providers kept_or new_email_provider
get_email_provider_skipped settings g skipped = rw (skipped, new_email_provider) refl
