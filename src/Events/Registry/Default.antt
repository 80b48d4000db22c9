-- ===== src/Events/Registry/Default.antt =====
-- `build_default_registry` of app/events/registry/handler_registry.py: the classes of the handlers, the
-- types that they declare, and the order in which they are registered. What a class's `handle` does
-- is a parameter.
pub mod Laws
use ushnotice.Common.{String, List, [], ◌∷◌}
use ushnotice.Store.{World}
use ushnotice.Events.Envelope.{EventEnvelope}
use ushnotice.Events.Handler.{EventHandler, Outcome}
use ushnotice.Events.Registry.{Registry, register_with_alias, register_missing}

pub data HandlerClass : Type 0 where
  user_registered_handler : HandlerClass
  password_reset_handler : HandlerClass
  user_verified_handler : HandlerClass
  password_changed_handler : HandlerClass
  customer_delete_handler : HandlerClass
  email_verification_handler : HandlerClass
  customer_new_created_handler : HandlerClass
  customer_created_handler : HandlerClass
  booking_cancelled_handler : HandlerClass
  booking_no_show_handler : HandlerClass
  booking_confirmed_handler : HandlerClass
  booking_requested_handler : HandlerClass
  booking_payment_pending_handler : HandlerClass
  booking_payment_failed_handler : HandlerClass
  reschedule_request_handler : HandlerClass
  booking_payment_status_success_handler : HandlerClass
  booking_updated_handler : HandlerClass
  refund_completed_handler : HandlerClass
  refund_approved_handler : HandlerClass
  payment_success_handler : HandlerClass
  payment_failed_handler : HandlerClass
  payment_refunded_handler : HandlerClass
  payment_pending_handler : HandlerClass
  payment_link_paid_handler : HandlerClass
  payment_link_failed_handler : HandlerClass
  voucher_active_handler : HandlerClass
  voucher_redeemed_handler : HandlerClass
  voucher_payment_pending_handler : HandlerClass
  voucher_scheduled_handler : HandlerClass
  voucher_delivery_due_handler : HandlerClass
  shop_order_created_handler : HandlerClass
  gift_purchase_completed_handler : HandlerClass
  gift_claimed_handler : HandlerClass
  gift_redeemed_purchase_handler : HandlerClass
  gift_delivered_handler : HandlerClass
  send_sms_handler : HandlerClass

-- the class attribute `event_type`
unfoldable pub event_type_of : HandlerClass → String
event_type_of user_registered_handler = "user.registered"
event_type_of password_reset_handler = "user.password_reset_requested"
event_type_of user_verified_handler = "user.verified"
event_type_of password_changed_handler = "user.password_changed"
event_type_of customer_delete_handler = "customer.deleted"
event_type_of email_verification_handler = "email.verification.requested"
event_type_of customer_new_created_handler = "customer.new_created"
event_type_of customer_created_handler = "customer.created"
event_type_of booking_cancelled_handler = "booking.cancelled"
event_type_of booking_no_show_handler = "booking.no_show"
event_type_of booking_confirmed_handler = "booking.confirmed"
event_type_of booking_requested_handler = "booking.created"
event_type_of booking_payment_pending_handler = "booking.payment_pending"
event_type_of booking_payment_failed_handler = "booking.payment_failed"
event_type_of reschedule_request_handler = "booking.reschedule_requested"
event_type_of booking_payment_status_success_handler = "booking.updated_payment_status_to_success"
event_type_of booking_updated_handler = "booking.updated"
event_type_of refund_completed_handler = "booking.refund_completed"
event_type_of refund_approved_handler = "refund.approved"
event_type_of payment_success_handler = "payment.success"
event_type_of payment_failed_handler = "payment.failed"
event_type_of payment_refunded_handler = "payment.refunded"
event_type_of payment_pending_handler = "payment.pending"
event_type_of payment_link_paid_handler = "payment_link.paid"
event_type_of payment_link_failed_handler = "payment_link.failed"
event_type_of voucher_active_handler = "voucher.active"
event_type_of voucher_redeemed_handler = "voucher.redeemed"
event_type_of voucher_payment_pending_handler = "voucher.payment_pending"
event_type_of voucher_scheduled_handler = "voucher.scheduled"
event_type_of voucher_delivery_due_handler = "voucher.delivery_due"
event_type_of shop_order_created_handler = "shop.order_created"
event_type_of gift_purchase_completed_handler = "gift.purchase.completed"
event_type_of gift_claimed_handler = "gift.claimed"
event_type_of gift_redeemed_purchase_handler = "gift.redeemed"
event_type_of gift_delivered_handler = "gift.delivered"
event_type_of send_sms_handler = "sms.send"

-- `__name__`
unfoldable pub name_of : HandlerClass → String
name_of user_registered_handler = "UserRegisteredHandler"
name_of password_reset_handler = "PasswordResetHandler"
name_of user_verified_handler = "UserVerifiedHandler"
name_of password_changed_handler = "PasswordChangedHandler"
name_of customer_delete_handler = "CustomerDeleteHandler"
name_of email_verification_handler = "EmailVerificationHandler"
name_of customer_new_created_handler = "CustomerNewCreatedHandler"
name_of customer_created_handler = "CustomerCreatedHandler"
name_of booking_cancelled_handler = "BookingCancelledHandler"
name_of booking_no_show_handler = "BookingNoShowHandler"
name_of booking_confirmed_handler = "BookingConfirmedHandler"
name_of booking_requested_handler = "BookingRequestedHandler"
name_of booking_payment_pending_handler = "BookingPaymentPendingHandler"
name_of booking_payment_failed_handler = "BookingPaymentFailedHandler"
name_of reschedule_request_handler = "RescheduleRequestHandler"
name_of booking_payment_status_success_handler = "BookingPaymentStatusSuccessHandler"
name_of booking_updated_handler = "BookingUpdatedHandler"
name_of refund_completed_handler = "RefundCompletedHandler"
name_of refund_approved_handler = "RefundApprovedHandler"
name_of payment_success_handler = "PaymentSuccessHandler"
name_of payment_failed_handler = "PaymentFailedHandler"
name_of payment_refunded_handler = "PaymentRefundedHandler"
name_of payment_pending_handler = "PaymentPendingHandler"
name_of payment_link_paid_handler = "PaymentLinkPaidHandler"
name_of payment_link_failed_handler = "PaymentLinkFailedHandler"
name_of voucher_active_handler = "VoucherActiveHandler"
name_of voucher_redeemed_handler = "VoucherRedeemedHandler"
name_of voucher_payment_pending_handler = "VoucherPaymentPendingHandler"
name_of voucher_scheduled_handler = "VoucherScheduledHandler"
name_of voucher_delivery_due_handler = "VoucherDeliveryDueHandler"
name_of shop_order_created_handler = "ShopOrderCreatedHandler"
name_of gift_purchase_completed_handler = "GiftPurchaseCompletedHandler"
name_of gift_claimed_handler = "GiftClaimedHandler"
name_of gift_redeemed_purchase_handler = "GiftRedeemedPurchaseHandler"
name_of gift_delivered_handler = "GiftDeliveredHandler"
name_of send_sms_handler = "SendSMSHandler"

abbrev pub auth_classes : List HandlerClass
auth_classes =
    user_registered_handler ∷ password_reset_handler ∷ user_verified_handler
    ∷ password_changed_handler ∷ customer_delete_handler ∷ email_verification_handler
    ∷ customer_new_created_handler ∷ customer_created_handler ∷ []

abbrev pub booking_classes : List HandlerClass
booking_classes =
    booking_cancelled_handler ∷ booking_no_show_handler ∷ booking_confirmed_handler
    ∷ booking_requested_handler ∷ booking_payment_pending_handler ∷ booking_payment_failed_handler
    ∷ reschedule_request_handler ∷ booking_payment_status_success_handler ∷ booking_updated_handler
    ∷ refund_completed_handler ∷ refund_approved_handler ∷ []

abbrev pub payment_classes : List HandlerClass
payment_classes =
    payment_success_handler ∷ payment_failed_handler ∷ payment_refunded_handler
    ∷ payment_pending_handler ∷ payment_link_paid_handler ∷ payment_link_failed_handler ∷ []

abbrev pub voucher_classes : List HandlerClass
voucher_classes =
    voucher_active_handler ∷ voucher_redeemed_handler ∷ voucher_payment_pending_handler
    ∷ voucher_scheduled_handler ∷ voucher_delivery_due_handler ∷ []

abbrev pub shop_classes : List HandlerClass
shop_classes = shop_order_created_handler ∷ []

abbrev pub gift_classes : List HandlerClass
gift_classes =
    gift_purchase_completed_handler ∷ gift_claimed_handler ∷ gift_redeemed_purchase_handler
    ∷ gift_delivered_handler ∷ []

abbrev pub sms_classes : List HandlerClass
sms_classes = send_sms_handler ∷ []

module _ {E : Type 0} (handles : HandlerClass → EventEnvelope → World E → Outcome × World E) where
  -- `SomeHandler()`
  unfoldable pub instance_of : HandlerClass → EventHandler E
  unfolding event_type_of name_of
  instance_of c = record {
    event_type = event_type_of c;
    class_name = name_of c;
    handle = handles c;
  }

  abbrev instances : List HandlerClass → List (EventHandler E)
  instances [] = []
  instances (c ∷ cs) = instance_of c ∷ instances cs

  abbrev register_auth : Registry E → Registry E
  register_auth r =
      register_missing (instance_of customer_delete_handler) ("customer_delete_requested" ∷ []) (
        register_missing (instance_of password_changed_handler) ("password_changed" ∷ []) (
          register_missing (instance_of password_reset_handler) ("password_reset_requested" ∷ [])
            (register_with_alias (instances auth_classes) r)))

  abbrev register_booking : Registry E → Registry E
  register_booking r =
      register_missing (instance_of booking_updated_handler)
        ("booking.rescheduled" ∷ "booking_rescheduled" ∷ "booking.status_updated"
          ∷ "booking_status_updated" ∷ "booking.completed" ∷ "booking_completed" ∷ [])
        (register_missing (instance_of refund_approved_handler)
          ("booking.refund_approved" ∷ "booking_refund_approved" ∷ [])
          (register_with_alias (instances booking_classes) r))

  abbrev register_sms : Registry E → Registry E
  register_sms r =
      register_missing (instance_of send_sms_handler)
        ("sms.mass_send" ∷ "sms_mass_send" ∷ "sms.send.requested" ∷ "sms_send_requested" ∷ [])
        (register_with_alias (instances sms_classes) r)

  unfoldable pub build_default_registry : Registry E
  unfolding register_with_alias register_missing instance_of
  build_default_registry = register_sms (
      register_with_alias (instances gift_classes) (
        register_with_alias (instances shop_classes) (
          register_with_alias (instances voucher_classes) (
            register_with_alias (instances payment_classes)
              (register_booking (register_auth []))))))
