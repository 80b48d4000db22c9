-- ===== src/Handlers/Default/Laws.antt =====
-- Events of the classes nothing of which is left to `others`, delivered more than once.
use ushnotice.Common.{◌≡◌, refl, true, [], ◌∷◌}
use ushnotice.Domain.Models.{Event}
use ushnotice.Store.{World}
use ushnotice.Store.Events.{is_real_id}
use ushnotice.Events.Envelope.{EventEnvelope}
use ushnotice.Events.Handler.{returned, LeavesRouting}
use ushnotice.Events.Registry.Default.{
  HandlerClass, event_type_of, instance_of, build_default_registry,
}
use ushnotice.Events.Registry.Default.Laws.{resolve-event_type_of}
use ushnotice.Events.Processor.{SqsIds, stored, process_valid}
use ushnotice.Events.Processor.Redelivery.{Untouched}
use ushnotice.Events.Processor.Repeats.{Redelivered, process_valid_repeats}
use ushnotice.Handlers.SendSms.Laws.{core-handle}
use ushnotice.Handlers.Messages.Frame.{KeepsCore, IsQuiet-LeavesRouting}
use ushnotice.Handlers.Default.{Wiring, is_self_contained, handles}
use ushnotice.Handlers.Auth.Frame.{
  user_registered-KeepsCore, password_reset-KeepsCore, user_verified-KeepsCore,
  password_changed-KeepsCore, email_verification-KeepsCore,
}
use ushnotice.Handlers.Calls.Frame.{
  booking_no_show-KeepsCore, voucher_payment_pending-KeepsCore, voucher_delivery_due-KeepsCore,
}
use ushnotice.Handlers.Payment.Frame.{
  payment_success-KeepsCore, payment_failed-KeepsCore, payment_pending-KeepsCore,
}
use ushnotice.Handlers.PaymentRefunded.Frame.{payment_refunded-KeepsCore}
use ushnotice.Handlers.Gifts.Frame.{
  gift_claimed-KeepsCore, gift_redeemed-KeepsCore, gift_delivered-KeepsCore,
}
use ushnotice.Handlers.Auth.{customer_delete, customer_new_created}
use ushnotice.Handlers.Refunds.Frame.{refund_completed-KeepsCore, refund_approved-KeepsCore}
use ushnotice.Handlers.Cancelled.Frame.{booking_cancelled-KeepsCore}
use ushnotice.Handlers.PendingBooking.Frame.{booking_payment_pending-KeepsCore}
use ushnotice.Handlers.Bookings.Frame.{reschedule_requested-KeepsCore}
use ushnotice.Handlers.Payment.{payment_link_failed}
use ushnotice.Handlers.Calls.{booking_requested, booking_payment_failed}

module _ {E : Type 0} (x : Wiring E) where
  still : KeepsCore {E = E} (λ w. (returned, w))
  still = record { kept = λ w. refl }

  handles-KeepsCore :
      (c : HandlerClass) (env : EventEnvelope)
      → is_self_contained c ≡ true
      → KeepsCore (handles x c env)
  unfolding handles is_self_contained customer_delete customer_new_created booking_requested
      booking_payment_failed payment_link_failed
  handles-KeepsCore HandlerClass.user_registered_handler env h =
      user_registered-KeepsCore x.setup env
  handles-KeepsCore HandlerClass.password_reset_handler env h = password_reset-KeepsCore x.setup env
  handles-KeepsCore HandlerClass.user_verified_handler env h = user_verified-KeepsCore x.setup env
  handles-KeepsCore HandlerClass.password_changed_handler env h =
      password_changed-KeepsCore x.setup env
  handles-KeepsCore HandlerClass.customer_delete_handler env h = still
  handles-KeepsCore HandlerClass.email_verification_handler env h =
      email_verification-KeepsCore x.setup env
  handles-KeepsCore HandlerClass.customer_new_created_handler env h = still
  handles-KeepsCore HandlerClass.customer_created_handler env h = still
  handles-KeepsCore HandlerClass.booking_cancelled_handler env h =
      booking_cancelled-KeepsCore x.setup x.shapes x.calls x.cancel env
  handles-KeepsCore HandlerClass.booking_no_show_handler env h =
      booking_no_show-KeepsCore x.setup x.shapes x.outside env
  handles-KeepsCore HandlerClass.booking_confirmed_handler env h = cc
  handles-KeepsCore HandlerClass.booking_requested_handler env h = still
  handles-KeepsCore HandlerClass.booking_payment_pending_handler env h =
      booking_payment_pending-KeepsCore x.setup x.shapes x.slots env
  handles-KeepsCore HandlerClass.booking_payment_failed_handler env h = still
  handles-KeepsCore HandlerClass.reschedule_request_handler env h =
      reschedule_requested-KeepsCore x.setup x.shapes x.accounting x.calls env
  handles-KeepsCore HandlerClass.booking_payment_status_success_handler env h = cc
  handles-KeepsCore HandlerClass.booking_updated_handler env h = cc
  handles-KeepsCore HandlerClass.refund_completed_handler env h =
      refund_completed-KeepsCore x.setup x.accounting x.calls env
  handles-KeepsCore HandlerClass.refund_approved_handler env h =
      refund_approved-KeepsCore x.setup x.accounting x.calls env
  handles-KeepsCore HandlerClass.payment_success_handler env h =
      payment_success-KeepsCore x.setup env
  handles-KeepsCore HandlerClass.payment_failed_handler env h = payment_failed-KeepsCore x.setup env
  handles-KeepsCore HandlerClass.payment_refunded_handler env h =
      payment_refunded-KeepsCore x.setup x.accounting env
  handles-KeepsCore HandlerClass.payment_pending_handler env h =
      payment_pending-KeepsCore x.setup env
  handles-KeepsCore HandlerClass.payment_link_paid_handler env h = cc
  handles-KeepsCore HandlerClass.payment_link_failed_handler env h = still
  handles-KeepsCore HandlerClass.voucher_active_handler env h = cc
  handles-KeepsCore HandlerClass.voucher_redeemed_handler env h = cc
  handles-KeepsCore HandlerClass.voucher_payment_pending_handler env h =
      voucher_payment_pending-KeepsCore x.setup x.shapes x.outside env
  handles-KeepsCore HandlerClass.voucher_scheduled_handler env h = cc
  handles-KeepsCore HandlerClass.voucher_delivery_due_handler env h =
      voucher_delivery_due-KeepsCore x.setup x.shapes x.outside env
  handles-KeepsCore HandlerClass.shop_order_created_handler env h = cc
  handles-KeepsCore HandlerClass.gift_purchase_completed_handler env h = cc
  handles-KeepsCore HandlerClass.gift_claimed_handler env h =
      gift_claimed-KeepsCore x.setup x.shapes env
  handles-KeepsCore HandlerClass.gift_redeemed_purchase_handler env h =
      gift_redeemed-KeepsCore x.setup x.shapes env
  handles-KeepsCore HandlerClass.gift_delivered_handler env h =
      gift_delivered-KeepsCore x.setup x.shapes x.gift_base_url env
  handles-KeepsCore HandlerClass.send_sms_handler env h = record {
    kept = core-handle x.setup.services x.setup.settings x.attribute_error env;
  }

  handles-LeavesRouting :
      (c : HandlerClass) → is_self_contained c ≡ true → LeavesRouting (instance_of (handles x) c)
  unfolding instance_of
  handles-LeavesRouting c h =
      IsQuiet-LeavesRouting (instance_of (handles x) c) (λ env. handles-KeepsCore c env h)

  -- If an event with an id of its own, whose type is declared by a class of which nothing is left
  -- to `others` (is_self_contained), was processed with the default registry and stored, then
  -- however often it is delivered again, the next processing sends nothing and calls no service: it
  -- stores the row it finds, with the same key, and leaves the processings, the notifications and
  -- the world outside as they were after the first.
  pub process_default_repeats :
      (c : HandlerClass) (env : EventEnvelope) (ids ids' : SqsIds) (w v : World E) (event : Event)
      → let registry = build_default_registry (handles x) in
        is_self_contained c ≡ true
        → env.event_type ≡ event_type_of c
        → is_real_id env.event_id ≡ true
        → (process_valid registry env ids w).0 ≡ stored event
        → Redelivered registry env (process_valid registry env ids w).1 v
        → Untouched event (process_valid registry env ids w).1 (process_valid registry env ids' v)
  process_default_repeats c env ids ids' w v event modelled typed real out r =
      let registry = build_default_registry (handles x) in
      process_valid_repeats registry env (instance_of (handles x) c ∷ []) event real
        (rw typed (resolve-event_type_of (handles x) c).0) (handles-LeavesRouting c modelled, tt)
        ids ids' w v out r
