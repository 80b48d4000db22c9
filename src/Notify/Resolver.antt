-- ===== src/Notify/Resolver.antt =====
-- `ChannelResolver` of app/notifications/application/channel_resolver.py: whom an event's payload
-- names, for each channel. `strip` and `str_of` are Python's.
pub mod Laws
use ushnotice.Common.{
  String, ◌==◌, Bool, true, false, not, Option, none, some, List, [], ◌∷◌, lower, starts_with,
  if◌then◌else◌,
}
use ushnotice.Json.{Json, str, bool, obj, Fields, get, truthy, or_else}
use ushnotice.Domain.Enums.{NotificationChannel, sms, whatsapp, email}
use ushnotice.Domain.Values.{Recipient, recipient}
use ushnotice.Notify.Settings.{Settings, is_email_skipped}

abbrev pub language_keys : List String
language_keys =
    "language_preference" ∷ "language" ∷ "preferred_language" ∷ "customer_language"
    ∷ "recipient_language" ∷ "sender_language" ∷ "lang" ∷ []

abbrev pub nested_wrappers : List String
nested_wrappers =
    "customer" ∷ "customer_data" ∷ "user" ∷ "user_data" ∷ "recipient" ∷ "recipient_data"
    ∷ "recipient_details" ∷ "sender" ∷ "sender_data" ∷ "sender_details" ∷ []

-- where a customer is described
abbrev pub wrappers : List String
wrappers = "customer" ∷ "customer_data" ∷ "user" ∷ "user_data" ∷ []

-- The first truthy value of the keys, or the last that was read.
unfoldable pub first_of : List String → Fields → Json
first_of [] body = bool false
first_of (key ∷ keys) body = or_else (get body key) (first_of keys body)

-- the keys of the dict at a wrapper
abbrev pub in_dict : List String → Json → Json
in_dict keys (obj nested) = first_of keys nested
in_dict keys _ = bool false

-- the loop over the wrappers
unfoldable pub first_nested : List String → List String → Fields → Json
unfolding first_of
first_nested keys [] body = bool false
first_nested keys (wrap ∷ wraps) body =
    or_else (in_dict keys (get body wrap)) (first_nested keys wraps body)

-- an address of the payload, or else of a dict in it
abbrev pub address_of : List String → List String → Fields → Json
address_of keys nested_keys body =
    or_else (first_of keys body) (first_nested nested_keys wrappers body)

unfoldable pub name_of : Fields → Json
unfolding first_of
name_of body =
    let names = "name" ∷ "full_name" ∷ [] in
    or_else (get body "customer_name") (
      or_else (get body "name") (
        or_else (in_dict names (get body "customer"))
          (or_else (in_dict names (get body "user")) (str ""))))

-- How a resolution ends: nobody, somebody, or the ValueError of an empty address.
pub data Resolved : Type 0 where
  nobody : Resolved
  somebody : Recipient → Resolved
  value_error : Resolved

module _ (strip : String → String) (str_of : Json → String) where
  -- the language that a text names
  unfoldable pub language_named : String → Option String
  language_named clean =
      if starts_with clean "ar"
      then some "ar"
      else if starts_with clean "en"
      then some "en"
      else none

  language_at : Json → Option String
  unfolding language_named
  language_at (str t) = if strip t == "" then none else language_named (lower (strip t))
  language_at _ = none

  or_try : Option String → Option String → Option String
  or_try (some l) other = some l
  or_try none other = other

  unfoldable pub language_in : List String → Fields → Option String
  unfolding language_at or_try
  language_in [] body = none
  language_in (key ∷ keys) body = or_try (language_at (get body key)) (language_in keys body)

  language_nested : Json → Option String
  unfolding language_in
  language_nested (obj nested) = language_in language_keys nested
  language_nested _ = none

  unfoldable pub language_within : List String → Fields → Option String
  unfolding language_nested or_try
  language_within [] body = none
  language_within (wrap ∷ wraps) body =
      or_try (language_nested (get body wrap)) (language_within wraps body)

  -- `default_lang or default_from_settings or "ar"`
  abbrev fallback : Option String → String → String
  fallback (some l) settings_language =
      if not (l == "") then l else if settings_language == "" then "ar" else settings_language
  fallback none settings_language = if settings_language == "" then "ar" else settings_language

  or_fallback : Option String → String → String
  or_fallback (some l) t = l
  or_fallback none t = if starts_with (lower (strip t)) "en" then "en" else "ar"

  unfoldable pub extract_language : Fields → Option String → String → String
  unfolding or_fallback or_try language_in language_within
  extract_language body default_lang settings_language =
      or_fallback (or_try (language_in language_keys body) (language_within nested_wrappers body))
        (fallback default_lang settings_language)

  made : Option Recipient → Resolved
  made none = value_error
  made (some r) = somebody r

  unfoldable pub resolve_at :
      NotificationChannel → Json → Fields → Option String → String → Resolved
  unfolding made recipient name_of extract_language
  resolve_at channel address body default_lang settings_language =
      if truthy address
      then made (
          recipient strip channel (str_of address) (str_of (name_of body))
            (extract_language body default_lang settings_language))
      else nobody

  unfoldable pub resolve_sms_recipient : Fields → Option String → String → Resolved
  unfolding resolve_at first_of first_nested
  resolve_sms_recipient body =
      resolve_at sms
        (address_of ("phone" ∷ "phone_number" ∷ "mobile" ∷ "customer_phone" ∷ [])
          ("phone" ∷ "phone_number" ∷ "mobile" ∷ []) body)
        body

  unfoldable pub resolve_email_recipient : Settings → Fields → Option String → String → Resolved
  unfolding resolve_at first_of first_nested
  resolve_email_recipient settings body default_lang settings_language =
      if is_email_skipped settings
      then nobody
      else resolve_at email (address_of ("email" ∷ "customer_email" ∷ []) ("email" ∷ []) body) body
          default_lang settings_language

  unfoldable pub resolve_whatsapp_recipient : Fields → Option String → String → Resolved
  unfolding resolve_at first_of first_nested
  resolve_whatsapp_recipient body =
      resolve_at whatsapp
        (address_of
          ("whatsapp_number" ∷ "phone" ∷ "phone_number" ∷ "mobile" ∷ "customer_phone" ∷ [])
          ("whatsapp_number" ∷ "phone" ∷ "phone_number" ∷ "mobile" ∷ []) body)
        body
