-- ===== src/Handlers/Default.antt =====
-- The handlers of this library behind the classes of the default registry. `others` stands for the
-- classes that are not modelled; it is also what the handlers of paid links and of bookings paid at
-- the desk end with, as the handler of confirmed bookings.
pub mod Laws
use ushnotice.Common.{String, Bool, true, false}
use ushnotice.Json.{Json}
use ushnotice.Events.Envelope.{EventEnvelope}
use ushnotice.Events.Registry.Default.{HandlerClass}
use ushnotice.Invoicing.Accounting.{Accounting}
use ushnotice.Handlers.Messages.{Setup, Step}
use ushnotice.Handlers.SendSms
use ushnotice.Handlers.Auth.{
  user_registered, user_verified, password_reset, password_changed, email_verification,
  customer_delete, customer_new_created,
}
use ushnotice.Handlers.Payment.{
  payment_failed, payment_pending, payment_success, payment_link_failed,
}
use ushnotice.Handlers.PaymentRefunded.{payment_refunded}
use ushnotice.Handlers.Gifts.{Shapes, gift_claimed, gift_delivered, gift_redeemed}
use ushnotice.Handlers.Calls.{
  Outside, booking_no_show, voucher_payment_pending, voucher_delivery_due, booking_requested,
  booking_payment_failed,
}
use ushnotice.Handlers.Services.{BookingCalls}
use ushnotice.Handlers.Refunds.{refund_completed, refund_approved}
use ushnotice.Handlers.Bookings.{reschedule_requested, payment_status_success}
use ushnotice.Handlers.LinkPaid.{payment_link_paid}
use ushnotice.Handlers.PendingBooking.{Slots, booking_payment_pending}
use ushnotice.Handlers.Cancelled.{CancelCalls, booking_cancelled}

-- What the handlers are made with.
pub record Wiring (E : Type 0) : Type 0 where
  pub setup : Setup E
  pub shapes : Shapes
  pub accounting : Accounting E
  pub outside : Outside E
  pub calls : BookingCalls E
  pub cancel : CancelCalls E
  pub slots : Slots E
  pub gift_base_url : String
  pub attribute_error : Json → String
  pub others : HandlerClass → EventEnvelope → Step E

-- The classes nothing of which is left to `others`.
unfoldable pub is_self_contained : HandlerClass → Bool
is_self_contained HandlerClass.user_registered_handler = true
is_self_contained HandlerClass.password_reset_handler = true
is_self_contained HandlerClass.user_verified_handler = true
is_self_contained HandlerClass.password_changed_handler = true
is_self_contained HandlerClass.customer_delete_handler = true
is_self_contained HandlerClass.email_verification_handler = true
is_self_contained HandlerClass.booking_no_show_handler = true
is_self_contained HandlerClass.booking_requested_handler = true
is_self_contained HandlerClass.booking_payment_failed_handler = true
is_self_contained HandlerClass.payment_success_handler = true
is_self_contained HandlerClass.payment_failed_handler = true
is_self_contained HandlerClass.payment_refunded_handler = true
is_self_contained HandlerClass.payment_pending_handler = true
is_self_contained HandlerClass.payment_link_failed_handler = true
is_self_contained HandlerClass.voucher_payment_pending_handler = true
is_self_contained HandlerClass.voucher_delivery_due_handler = true
is_self_contained HandlerClass.gift_claimed_handler = true
is_self_contained HandlerClass.gift_redeemed_purchase_handler = true
is_self_contained HandlerClass.gift_delivered_handler = true
is_self_contained HandlerClass.send_sms_handler = true
is_self_contained HandlerClass.customer_new_created_handler = true
is_self_contained HandlerClass.customer_created_handler = true
is_self_contained HandlerClass.reschedule_request_handler = true
is_self_contained HandlerClass.refund_completed_handler = true
is_self_contained HandlerClass.refund_approved_handler = true
is_self_contained HandlerClass.booking_cancelled_handler = true
is_self_contained HandlerClass.booking_payment_pending_handler = true
is_self_contained _ = false

module _ {E : Type 0} (x : Wiring E) where
  unfoldable pub handles : HandlerClass → EventEnvelope → Step E
  handles HandlerClass.user_registered_handler = user_registered x.setup
  handles HandlerClass.password_reset_handler = password_reset x.setup
  handles HandlerClass.user_verified_handler = user_verified x.setup
  handles HandlerClass.password_changed_handler = password_changed x.setup
  handles HandlerClass.customer_delete_handler = customer_delete
  handles HandlerClass.email_verification_handler = email_verification x.setup
  handles HandlerClass.booking_no_show_handler = booking_no_show x.setup x.shapes x.outside
  handles HandlerClass.booking_requested_handler = booking_requested
  handles HandlerClass.booking_payment_failed_handler = booking_payment_failed
  handles HandlerClass.payment_success_handler = payment_success x.setup
  handles HandlerClass.payment_failed_handler = payment_failed x.setup
  handles HandlerClass.payment_refunded_handler = payment_refunded x.setup x.accounting
  handles HandlerClass.payment_pending_handler = payment_pending x.setup
  handles HandlerClass.payment_link_failed_handler = payment_link_failed
  handles HandlerClass.voucher_payment_pending_handler =
      voucher_payment_pending x.setup x.shapes x.outside
  handles HandlerClass.voucher_delivery_due_handler =
      voucher_delivery_due x.setup x.shapes x.outside
  handles HandlerClass.gift_claimed_handler = gift_claimed x.setup x.shapes
  handles HandlerClass.gift_redeemed_purchase_handler = gift_redeemed x.setup x.shapes
  handles HandlerClass.gift_delivered_handler = gift_delivered x.setup x.shapes x.gift_base_url
  handles HandlerClass.send_sms_handler =
      SendSms.handle x.setup.services x.setup.settings x.attribute_error
  handles HandlerClass.customer_new_created_handler = customer_new_created
  handles HandlerClass.customer_created_handler = customer_new_created
  handles HandlerClass.reschedule_request_handler =
      reschedule_requested x.setup x.shapes x.accounting x.calls
  handles HandlerClass.refund_completed_handler = refund_completed x.setup x.accounting x.calls
  handles HandlerClass.refund_approved_handler = refund_approved x.setup x.accounting x.calls
  handles HandlerClass.booking_payment_status_success_handler =
      payment_status_success x.setup x.shapes x.accounting x.calls
        (x.others HandlerClass.booking_confirmed_handler)
  handles HandlerClass.payment_link_paid_handler =
      payment_link_paid x.setup x.shapes x.calls (x.others HandlerClass.booking_confirmed_handler)
  handles HandlerClass.booking_cancelled_handler =
      booking_cancelled x.setup x.shapes x.calls x.cancel
  handles HandlerClass.booking_payment_pending_handler =
      booking_payment_pending x.setup x.shapes x.slots
  handles c = x.others c
