-- ===== src/Handlers/Bookings.antt =====
-- `RescheduleRequestHandler` of app/events/handlers/booking/reschedule_request.py,
-- and `BookingPaymentStatusSuccessHandler` of booking_payment_status_success.py: the calls of the other
-- services in their order. `confirmed` stands for the `handle` of `BookingConfirmedHandler`, which the
-- second ends with. The latency is left out.
pub mod Frame
pub mod Laws
use ushnotice.Common.{
  String, ◌==◌, ◌<>◌, ◌&&◌, ◌||◌, not, Bool, Option, none, some, lower, if◌then◌else◌,
}
use ushnotice.Json.{
  null, Json, str, bool, obj, Fields, end, field, get, put, has_key, or_else, truthy, as_dict,
}
use ushnotice.Domain.Models.{ApiRequest}
use ushnotice.Store.{World}
use ushnotice.Store.Requests
use ushnotice.Store.Requests.{NewRequest}
use ushnotice.Events.Envelope.{EventEnvelope}
use ushnotice.Events.Handler.{Outcome, returned, raised}
use ushnotice.Invoicing.Lines.{attr_get, or_dict}
use ushnotice.Invoicing.Accounting.{Accounting, Called, answered, refused}
use ushnotice.Invoicing.Triggers.{trigger_booking_invoice}
use ushnotice.Handlers.Messages.{Setup, Step, text_or_empty}
use ushnotice.Handlers.Gifts.{Shapes}
use ushnotice.Handlers.Services.{
  BookingCalls, Attempted, done, failed_with, StatusUpdate, merge, booking_in,
}

module _ {E : Type 0} (u : Setup E) (shapes : Shapes) (accounting : Accounting E)
    (calls : BookingCalls E) where
  contacts_of : Called Json × E → Json × E
  contacts_of (answered v, e) = (v, e)
  contacts_of (refused, e) = (obj end, e)

  -- The contacts of the branch; without an id, or if the call raises, an empty dict.
  unfoldable pub branch_contacts : EventEnvelope → E → Json × E
  unfolding contacts_of
  branch_contacts env e =
      let branch_id = text_or_empty u (get env.body "branch_id") in
      if branch_id == ""
      then (obj end, e)
      else contacts_of (calls.get_branch_contacts branch_id env.correlation_id e)

  abbrev pub change_reason : String
  change_reason = "Customer requested reschedule via event"

  abbrev pub change_request : EventEnvelope → String → NewRequest
  change_request env booking_id = record {
    service = "ushbooknpay";
    method = "PATCH";
    path = "/internal/bookings/" <> booking_id <> "/status/";
    request_body =
        some (field "status" (str "RESCHEDULE_REQUESTED") (field "reason" (str change_reason) end));
    notification_id = none;
    event_id = some env.event_id;
    request_id = none;
    correlation_id = env.correlation_id;
  }

  unfoldable pub record_answer : ApiRequest → World E → Attempted Fields × E → World E
  record_answer r w (done answer, e) =
      Requests.mark_success r 200 (some answer) (record w { env = e })
  record_answer r w (failed_with message, e) =
      Requests.mark_failed r message none (record w { env = e })

  unfoldable pub call_status : EventEnvelope → String → ApiRequest × World E → World E
  unfolding record_answer
  call_status env booking_id (r, w) =
      let update : StatusUpdate = record {
        booking_id = booking_id;
        status = "RESCHEDULE_REQUESTED";
        payment_status = none;
        reason = change_reason;
        source = none;
        change_by_user = none;
        change_by_user_data = null;
        correlation_id = env.correlation_id;
      } in
      record_answer r w (calls.update_booking_status update w.env)

  -- The status is changed, with a row of the request, if there is a booking; contacts that are no
  -- dict raise.
  unfoldable pub with_contacts : EventEnvelope → World E → Json × E → Outcome × World E
  unfolding call_status
  with_contacts env w (contacts, e) =
      let booking_id = text_or_empty u (get env.body "booking_id") in
      elim (attr_get contacts "name") [
        | none ↦ (raised shapes.error_text, record w { env = e })
        | some _ ↦ if booking_id == "" then (returned, record w { env = e }) else (
          returned,
          call_status env booking_id
              (Requests.create (change_request env booking_id) (record w { env = e })),
        )
      ]

  unfoldable pub reschedule_requested : EventEnvelope → Step E
  unfolding with_contacts
  reschedule_requested env w = with_contacts env w (branch_contacts env w.env)

  completed_with : Fields → Called Json × E → Option Fields × E
  completed_with body (refused, e) = (none, e)
  completed_with body (answered v, e) =
      (some (elim (as_dict (booking_in v)) [ some booking ↦ merge booking body | none ↦ body ]), e)

  -- The event's data over the booking's, where the event has only a summary; none where it raises.
  unfoldable pub invoice_fields : EventEnvelope → E → Option Fields × E
  unfolding completed_with booking_in
  invoice_fields env e =
      if truthy (get env.body "service_id") && truthy (get env.body "total_amount")
      then (some env.body, e)
      else completed_with env.body
          (calls.get_booking (get env.body "booking_id") (some env.event_id) e)

  abbrev word : Fields → String → String
  word body key = lower (u.services.strip (text_or_empty u (get body key)))

  unfoldable pub is_voucher_redemption : Fields → Bool
  is_voucher_redemption body =
      word body "payment_type" == "gift_voucher"
      || (truthy (get body "voucher_id")
          || (word body "payment_method" == "voucher"
              || word body "payment_method" == "gift_voucher"))

  -- the invoice, whose exceptions are only logged, and the data that the confirmation gets
  unfoldable pub invoiced : EventEnvelope → Option Fields × E → Fields × E
  unfolding is_voucher_redemption
  invoiced env (none, e) = (env.body, e)
  invoiced env (some body, e) =
      if is_voucher_redemption body
      then (body, e)
      else (body, (trigger_booking_invoice accounting body e).1)

  module _ (confirmed : EventEnvelope → Step E) where
    unfoldable pub confirm : EventEnvelope → World E → Fields × E → Outcome × World E
    confirm env w (body, e) =
        let confirmed_envelope = record env {
          event_type = "booking.confirmed";
          body = put body "payment_status" (str "success");
        } in
        (returned, (confirmed confirmed_envelope (record w { env = e })).1)

    -- An answer that is no dict raises where the log reads it.
    unfoldable pub after_cache : EventEnvelope → World E → Attempted Json × E → Outcome × World E
    unfolding confirm invoiced
    after_cache env w (failed_with message, e) = (raised message, record w { env = e })
    after_cache env w (done answer, e) = elim (attr_get answer "records_updated") [
      | none ↦ (raised shapes.error_text, record w { env = e })
      | some _ ↦ confirm env w (invoiced env (invoice_fields env e))
    ]

    -- `BookingPaymentStatusSuccessHandler.handle`
    unfoldable pub payment_status_success : EventEnvelope → Step E
    unfolding after_cache
    payment_status_success env w =
        let booking_id = get env.body "booking_id" in
        let payment_status = or_else (get env.body "payment_status") (str "success") in
        if truthy booking_id
        then after_cache env w (
            calls.update_appointment_cache_payment_status booking_id payment_status
              (some env.event_id) w.env)
        else (returned, w)
