-- ===== src/Handlers/Calls.antt =====
-- The handlers of app/events/handlers that make one call outside and send no message, and those that
-- only log: booking_no_show, voucher_payment_pending, voucher_delivery_due, booking_requested and the
-- booking's payment_failed.
pub mod Frame
use ushnotice.Common.{ℕ, String, ◌==◌, ◌<>◌, Bool, true, Option, none, some, nat_eq, if◌then◌else◌}
use ushnotice.Json.{Json, str, bool, Fields, field, end, get, or_else}
use ushnotice.Store.{World}
use ushnotice.Events.Envelope.{EventEnvelope}
use ushnotice.Events.Handler.{Outcome, returned, raised}
use ushnotice.Invoicing.Lines.{or_get, or_dict, attr_get}
use ushnotice.Handlers.Messages.{Setup, Step, text_or_empty}
use ushnotice.Handlers.Gifts.{Shapes, digits}

-- How a call of another service ends: with an answer, with a ServiceClientError of a status, or with
-- another exception. The texts are the exceptions' messages.
pub data CallResult : Type 0 where
  succeeded : CallResult
  client_error : ℕ → String → CallResult
  other_error : String → CallResult

-- The calls, with their arguments in the code's order.
pub record Outside (E : Type 0) : Type 0 where
  pub delete_appointment_cache : String → Option String → E → CallResult × E
  pub activate_scheduled_voucher : String → Fields → Option String → E → CallResult × E
  -- `get_redis().setex(key, seconds, value)`, whose exception is ignored
  pub setex : String → ℕ → String → E → E

module _ {E : Type 0} (u : Setup E) (shapes : Shapes) (outside : Outside E) where
  -- the world after a call
  abbrev pub with_env : World E → E → World E
  with_env w e = record w { env = e }

  -- A record that is gone is as good as deleted.
  unfoldable pub no_show_end : World E → CallResult × E → Outcome × World E
  no_show_end w (succeeded, e) = (returned, with_env w e)
  no_show_end w (client_error status message, e) =
      (if nat_eq status 404 then returned else raised message, with_env w e)
  no_show_end w (other_error message, e) = (raised message, with_env w e)

  -- `BookingNoShowHandler.handle`
  unfoldable pub booking_no_show : EventEnvelope → Step E
  unfolding no_show_end
  booking_no_show env w =
      let booking_id = text_or_empty u (get env.body "booking_id") in
      if booking_id == ""
      then (returned, w)
      else no_show_end w (outside.delete_appointment_cache booking_id env.correlation_id w.env)

  unfoldable pub cache_phone : Option String → Step E
  cache_phone none w = (raised shapes.error_text, w)
  cache_phone (some phone) w = if phone == "" then (returned, w) else (
    returned,
    with_env w (outside.setex ("voucher_recipient_pending:" <> phone) 3600 "1" w.env),
  )

  phone_digits : Fields → Option Json → Option String
  phone_digits body none = none
  phone_digits body (some phone) =
      digits shapes (or_else phone (or_else (get body "recipient_phone") (str "")))

  unfoldable pub pending_phone : Fields → Option String
  unfolding phone_digits
  pending_phone body =
      let details = or_dict (or_else (get body "recipient_details") (get body "recipient_data")) in
      phone_digits body (attr_get details "phone_number")

  -- `VoucherPaymentPendingHandler.handle`
  unfoldable pub voucher_payment_pending : EventEnvelope → Step E
  unfolding cache_phone pending_phone
  voucher_payment_pending env = cache_phone (pending_phone env.body)

  unfoldable pub activated : World E → CallResult × E → Outcome × World E
  activated w (succeeded, e) = (returned, with_env w e)
  activated w (client_error status message, e) = (raised message, with_env w e)
  activated w (other_error message, e) = (raised message, with_env w e)

  -- `VoucherDeliveryDueHandler.handle`
  unfoldable pub voucher_delivery_due : EventEnvelope → Step E
  unfolding activated
  voucher_delivery_due env w =
      let voucher_id = text_or_empty u (or_else (get env.body "voucher_id") (get env.body "id")) in
      let delivery_result =
        field "delivered" (bool true) (
          field "source" (str "eventbridge_scheduler") (field "event_id" (str env.event_id) end)) in
      if voucher_id == ""
      then (returned, w)
      else activated w
          (outside.activate_scheduled_voucher voucher_id delivery_result env.correlation_id w.env)

-- They only log.
unfoldable pub booking_requested : {E : Type 0} → EventEnvelope → Step E
booking_requested env w = (returned, w)

unfoldable pub booking_payment_failed : {E : Type 0} → EventEnvelope → Step E
booking_payment_failed env w = (returned, w)
