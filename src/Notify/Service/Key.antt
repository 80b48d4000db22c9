-- ===== src/Notify/Service/Key.antt =====
-- Which requests share a claim.
use text.Mathlib.TextLemmas.{append_cancel_left}
use ushnotice.Common.{◌≡◌, ◌≢◌, ◌↔◌, sym, ◌∙◌, ap, String, ◌<>◌, eq_iff, true, some, arith}
use ushnotice.Domain.Enums.{channel_value, NotificationChannel}
use ushnotice.Domain.Values.{NotificationRequest}
use ushnotice.Notify.Service.{is_object_scoped, scope, dedup_key}

-- the key before its scope
abbrev key_of : String → NotificationChannel → String → String → String
key_of template channel address sc =
    "notif_sent:" <> template <> ":" <> channel_value channel <> ":" <> address <> ":" <> sc

key_of_injective :
    (t : String) (c : NotificationChannel) (r x y : String)
    → key_of t c r x ≡ key_of t c r y
    → x ≡ y
key_of_injective t c r x y e = append_cancel_left ":" _ _ (
    append_cancel_left r _ _ (
      append_cancel_left ":" _ _ (
        append_cancel_left (channel_value c) _ _ (
          append_cancel_left ":" _ _
            (append_cancel_left t _ _ (append_cancel_left "notif_sent:" _ _ e))))))

-- Two requests with the same template, channel and address have the same key exactly if they have
-- the same scope.
pub dedup_key-eq_iff :
    (a b : NotificationRequest)
    → a.template_name ≡ b.template_name
    → a.recipient.channel ≡ b.recipient.channel
    → a.recipient.address ≡ b.recipient.address
    → (dedup_key a ≡ dedup_key b) ↔ (scope a ≡ scope b)
unfolding dedup_key
dedup_key-eq_iff a b t c r =
    let same : key_of a.template_name a.recipient.channel a.recipient.address (scope a)
        ≡ key_of b.template_name b.recipient.channel b.recipient.address (scope a) =
      λ i. key_of (t i) (c i) (r i) (scope a) in
    (
      (λ e.
          key_of_injective b.template_name b.recipient.channel b.recipient.address (scope a)
            (scope b) (sym same ∙ e)),
      (λ e. same ∙ ap (key_of b.template_name b.recipient.channel b.recipient.address) e),
    )

-- Requests of templates scoped to an object that name the same non-empty object have the same
-- scope, whatever their events.
pub scope_object :
    (a b : NotificationRequest) (gift : String)
    → a.booking_id ≡ some gift
    → b.booking_id ≡ some gift
    → gift ≢ ""
    → is_object_scoped a.template_name ≡ true
    → is_object_scoped b.template_name ≡ true
    → scope a ≡ scope b
unfolding scope
scope_object a b gift p q nonempty s t = ground (arith, eq_iff gift "")
