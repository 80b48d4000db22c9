-- ===== src/Notify/Resolver/Laws.antt =====
-- Whom the resolver yields.
use ushnotice.Common.{
  ◌≡◌, ◌≢◌, refl, ◌⊎◌, inl, inr, String, ◌==◌, Bool, Bool-cases, true, false, Option, List, [], ◌∷◌,
  All, eq_iff, starts_with, lower, if◌then◌else◌,
}
use ushnotice.Json.{Json, obj, bool, Fields, get, truthy, or_else}
use ushnotice.Domain.Enums.{NotificationChannel, sms, whatsapp}
use ushnotice.Domain.Values.{Recipient, recipient}
use ushnotice.Notify.Resolver.{
  Resolved, nobody, somebody, value_error, first_of, first_nested, in_dict, wrappers, made,
  resolve_at, resolve_sms_recipient, resolve_whatsapp_recipient,
}

abbrev pub IsLanguage : String → Type 0
IsLanguage l = (l ≡ "ar") ⊎ (l ≡ "en")

-- a recipient that can be sent to by the channel
pub record Reachable (c : NotificationChannel) (r : Recipient) : Type 0 where
  pub channel : r.channel ≡ c
  pub address : r.address ≢ ""
  pub language : IsLanguage r.language

-- A resolution is nobody, the error, or somebody with the property.
abbrev pub Resolves : (Recipient → Type 0) → Resolved → Type 0
Resolves P nobody = Unit
Resolves P value_error = Unit
Resolves P (somebody r) = P r

spoken-IsLanguage : (b : Bool) → IsLanguage (if b then "en" else "ar")
spoken-IsLanguage true = inr refl
spoken-IsLanguage false = inl refl

module _ (strip : String → String) (str_of : Json → String) where
  made-Reachable :
      (c : NotificationChannel) (address name language : String)
      → Resolves (Reachable c) (made strip str_of (recipient strip c address name language))
  unfolding recipient made
  made-Reachable c address name language = elim (Bool-cases (address == "")) [
    | inl empty ↦ rw (empty, recipient) tt
    | inr full ↦
        rw (full, recipient)
          (record {
            channel = refl;
            address = λ e. let same = (eq_iff address "").1 e in cc;
            language = spoken-IsLanguage (starts_with (lower (strip language)) "en");
          })
  ]

  -- Whomever resolve_at yields is on the channel that was asked for, has an address that is not
  -- empty, and a language that is Arabic or English.
  pub resolve_at-Reachable :
      (c : NotificationChannel) (address : Json) (body : Fields) (default_lang : Option String)
      (settings_language : String)
      → Resolves
          (Reachable c)
          (resolve_at strip str_of c address body default_lang settings_language)
  unfolding resolve_at
  resolve_at-Reachable c address body default_lang settings_language =
      elim (Bool-cases (truthy address)) [
        | inl given ↦ rw (given, resolve_at) (made-Reachable c _ _ _)
        | inr missing ↦ rw (missing, resolve_at) tt
      ]

-- the same person on another channel
abbrev pub on_channel : NotificationChannel → Resolved → Resolved
on_channel c nobody = nobody
on_channel c value_error = value_error
on_channel c (somebody r) = somebody (record r { channel = c })

first_of_skip :
    (key : String) (keys : List String) (body : Fields)
    → truthy (get body key) ≡ false
    → first_of (key ∷ keys) body ≡ first_of keys body
unfolding first_of or_else
first_of_skip key keys body h = rw h refl

not_truthy : (v : Json) → truthy (or_else v (bool false)) ≡ false → truthy v ≡ false
unfolding or_else truthy
not_truthy v h = elim (Bool-cases (truthy v)) [ inl e ↦ rw (e, or_else) at h | inr e ↦ e ]

in_dict_skip :
    (key : String) (keys : List String) (v : Json)
    → truthy (in_dict (key ∷ []) v) ≡ false
    → in_dict (key ∷ keys) v ≡ in_dict keys v
unfolding first_of or_else
in_dict_skip key keys (obj nested) h = first_of_skip key keys nested (not_truthy (get nested key) h)
in_dict_skip key keys Json.null h = refl
in_dict_skip key keys (bool _) h = refl
in_dict_skip key keys (Json.num _ _) h = refl
in_dict_skip key keys (Json.str _) h = refl
in_dict_skip key keys (Json.arr _) h = refl

-- where none of the dicts at the wrappers has the key
abbrev pub LacksNested : String → Fields → List String → Type 0
LacksNested key body wraps = All (λ wrap. truthy (in_dict (key ∷ []) (get body wrap)) ≡ false) wraps

first_nested_skip :
    (key : String) (keys wraps : List String) (body : Fields)
    → LacksNested key body wraps
    → first_nested (key ∷ keys) wraps body ≡ first_nested keys wraps body
unfolding first_nested
first_nested_skip key keys [] body h = refl
first_nested_skip key keys (wrap ∷ wraps) body (h, hs) =
    rw (in_dict_skip key keys (get body wrap) h, first_nested_skip key keys wraps body hs) refl

module _ (strip : String → String) (str_of : Json → String) where
  made-on_channel :
      (c c' : NotificationChannel) (address name language : String)
      → made strip str_of (recipient strip c' address name language)
        ≡ on_channel c' (made strip str_of (recipient strip c address name language))
  unfolding made recipient
  made-on_channel c c' address name language = elim (Bool-cases (address == "")) [
    | inl empty ↦ rw (empty, recipient) refl
    | inr full ↦ rw (full, recipient) refl
  ]

  resolve_at-on_channel :
      (c c' : NotificationChannel) (address : Json) (body : Fields) (default_lang : Option String)
      (settings_language : String)
      → resolve_at strip str_of c' address body default_lang settings_language
        ≡ on_channel c' (resolve_at strip str_of c address body default_lang settings_language)
  unfolding resolve_at
  resolve_at-on_channel c c' address body default_lang settings_language =
      elim (Bool-cases (truthy address)) [
        | inl given ↦ rw (given, resolve_at) (made-on_channel c c' _ _ _)
        | inr missing ↦ rw (missing, resolve_at) refl
      ]

  -- Where neither the payload nor a dict of a customer or user in it has a whatsapp_number,
  -- WhatsApp goes to whom an SMS would go to.
  pub resolve_whatsapp_recipient-on_channel :
      (body : Fields) (default_lang : Option String) (settings_language : String)
      → truthy (get body "whatsapp_number") ≡ false
      → LacksNested "whatsapp_number" body wrappers
      → resolve_whatsapp_recipient strip str_of body default_lang settings_language
        ≡ on_channel whatsapp
            (resolve_sms_recipient strip str_of body default_lang settings_language)
  unfolding resolve_whatsapp_recipient resolve_sms_recipient
  resolve_whatsapp_recipient-on_channel body default_lang settings_language lacks lacks_nested =
      rw
        (
          first_of_skip "whatsapp_number"
              ("phone" ∷ "phone_number" ∷ "mobile" ∷ "customer_phone" ∷ []) body lacks,
          first_nested_skip "whatsapp_number" ("phone" ∷ "phone_number" ∷ "mobile" ∷ []) wrappers
              body lacks_nested,
        )
        (resolve_at-on_channel sms whatsapp _ body default_lang settings_language)
