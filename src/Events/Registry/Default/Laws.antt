-- ===== src/Events/Registry/Default/Laws.antt =====
-- What the default registry resolves types to.
use ushnotice.Common.{
  String, ◌==◌, ◌≡◌, refl, List, [], ◌∷◌, ◌&&◌, nat_eq, length, Bool, Bool-cases, true, Option,
  some, inl, inr, arith, lower, replace_char,
}
use ushnotice.Store.{World}
use ushnotice.Events.Envelope.{EventEnvelope}
use ushnotice.Events.Handler.{EventHandler, Outcome}
use ushnotice.Events.Registry.{Registry, known, lookup, resolve, alias_type}
use ushnotice.Events.Registry.Default.{
  HandlerClass, event_type_of, instance_of, build_default_registry,
}

module _ {E : Type 0} where
  abbrev all_single : Registry E → Bool
  all_single [] = true
  all_single ((k, hs) ∷ r) = nat_eq (length hs) 1 && all_single r

  -- Where each entry has one handler, a type that resolves has one.
  lookup-all_single :
      (key : String) (r : Registry E) (hs : List (EventHandler E))
      → all_single r ≡ true
      → lookup key r ≡ some hs
      → length hs ≡ 1
  unfolding lookup
  lookup-all_single key [] hs single h = cc
  lookup-all_single key ((k, js) ∷ r) hs single h = elim (Bool-cases (k == key)) [
    | inl hit ↦ ground arith
    | inr miss ↦ lookup-all_single key r hs (ground arith) (ground arith)
  ]

  known-some :
      (o : Option (List (EventHandler E))) (hs : List (EventHandler E))
      → known o ≡ some hs
      → o ≡ some hs
  unfolding known
  known-some (some (j ∷ js)) hs h = h
  known-some (some []) hs h = cc
  known-some Option.none hs h = cc

  resolve-lookup :
      (event_type : String) (r : Registry E) (hs : List (EventHandler E))
      → resolve event_type r ≡ some hs
      → lookup (lower event_type) r ≡ some hs
  unfolding resolve
  resolve-lookup event_type r hs h = known-some (lookup (lower event_type) r) hs h

  module _ (handles : HandlerClass → EventEnvelope → World E → Outcome × World E) where
    build-all_single : all_single (build_default_registry handles) ≡ true
    unfolding build_default_registry replace_char lower
    build-all_single = refl

    -- A type that the default registry knows has exactly one handler.
    pub length-resolve :
        (event_type : String) (hs : List (EventHandler E))
        → resolve event_type (build_default_registry handles) ≡ some hs
        → length hs ≡ 1
    length-resolve event_type hs h =
        let r = build_default_registry handles in
        lookup-all_single (lower event_type) r hs build-all_single
          (resolve-lookup event_type r hs h)

    -- Each class is the one handler of the type that it declares, and, with the type set to it, of
    -- that type with underscores for the dots.
    pub resolve-event_type_of :
        (c : HandlerClass)
        → let r = build_default_registry handles in
          let alias = alias_type (event_type_of c) in
          (resolve (event_type_of c) r ≡ some (instance_of handles c ∷ []))
          × (resolve alias r ≡ some (record (instance_of handles c) { event_type = alias } ∷ []))
    unfolding resolve build_default_registry replace_char lower
    resolve-event_type_of HandlerClass.user_registered_handler = (refl, refl)
    resolve-event_type_of HandlerClass.password_reset_handler = (refl, refl)
    resolve-event_type_of HandlerClass.user_verified_handler = (refl, refl)
    resolve-event_type_of HandlerClass.password_changed_handler = (refl, refl)
    resolve-event_type_of HandlerClass.customer_delete_handler = (refl, refl)
    resolve-event_type_of HandlerClass.email_verification_handler = (refl, refl)
    resolve-event_type_of HandlerClass.customer_new_created_handler = (refl, refl)
    resolve-event_type_of HandlerClass.customer_created_handler = (refl, refl)
    resolve-event_type_of HandlerClass.booking_cancelled_handler = (refl, refl)
    resolve-event_type_of HandlerClass.booking_no_show_handler = (refl, refl)
    resolve-event_type_of HandlerClass.booking_confirmed_handler = (refl, refl)
    resolve-event_type_of HandlerClass.booking_requested_handler = (refl, refl)
    resolve-event_type_of HandlerClass.booking_payment_pending_handler = (refl, refl)
    resolve-event_type_of HandlerClass.booking_payment_failed_handler = (refl, refl)
    resolve-event_type_of HandlerClass.reschedule_request_handler = (refl, refl)
    resolve-event_type_of HandlerClass.booking_payment_status_success_handler = (refl, refl)
    resolve-event_type_of HandlerClass.booking_updated_handler = (refl, refl)
    resolve-event_type_of HandlerClass.refund_completed_handler = (refl, refl)
    resolve-event_type_of HandlerClass.refund_approved_handler = (refl, refl)
    resolve-event_type_of HandlerClass.payment_success_handler = (refl, refl)
    resolve-event_type_of HandlerClass.payment_failed_handler = (refl, refl)
    resolve-event_type_of HandlerClass.payment_refunded_handler = (refl, refl)
    resolve-event_type_of HandlerClass.payment_pending_handler = (refl, refl)
    resolve-event_type_of HandlerClass.payment_link_paid_handler = (refl, refl)
    resolve-event_type_of HandlerClass.payment_link_failed_handler = (refl, refl)
    resolve-event_type_of HandlerClass.voucher_active_handler = (refl, refl)
    resolve-event_type_of HandlerClass.voucher_redeemed_handler = (refl, refl)
    resolve-event_type_of HandlerClass.voucher_payment_pending_handler = (refl, refl)
    resolve-event_type_of HandlerClass.voucher_scheduled_handler = (refl, refl)
    resolve-event_type_of HandlerClass.voucher_delivery_due_handler = (refl, refl)
    resolve-event_type_of HandlerClass.shop_order_created_handler = (refl, refl)
    resolve-event_type_of HandlerClass.gift_purchase_completed_handler = (refl, refl)
    resolve-event_type_of HandlerClass.gift_claimed_handler = (refl, refl)
    resolve-event_type_of HandlerClass.gift_redeemed_purchase_handler = (refl, refl)
    resolve-event_type_of HandlerClass.gift_delivered_handler = (refl, refl)
    resolve-event_type_of HandlerClass.send_sms_handler = (refl, refl)
