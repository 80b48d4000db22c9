-- ===== src/Handlers/LinkPaid.antt =====
-- `PaymentLinkPaidHandler` of app/events/handlers/payment/payment_link_paid.py: the calls of the other
-- services, and the confirmation with the payment's data in the booking. `confirmed` stands for the
-- `handle` of `BookingConfirmedHandler`.
use ushnotice.Common.{String, ◌==◌, ◌||◌, not, true, Option, none, some, lower, if◌then◌else◌}
use ushnotice.Json.{
  null, Json, str, bool, obj, Fields, end, field, get, put, or_else, truthy, as_dict,
}
use ushnotice.Events.Envelope.{EventEnvelope}
use ushnotice.Events.Handler.{returned, raised}
use ushnotice.Handlers.Messages.{Setup, Step, text_or_empty}
use ushnotice.Handlers.Gifts.{Shapes}
use ushnotice.Handlers.Services.{BookingCalls, StatusUpdate, PaidInvoice, merge}

-- the identifiers of the gateway, which both dicts repeat
unfoldable pub payment_ids : Fields → Fields → Fields
payment_ids body rest = field "transaction_id" (get body "transaction_id") (
    field "track_id" (get body "track_id") (
      field "reference_id" (get body "reference_id")
        (field "invoice_id" (get body "gateway_invoice_id") rest)))

abbrev pub first_of : Fields → String → Fields → String → Json
first_of a k b l = or_else (get a k) (get b l)

-- what the booking is given before its payment data
unfoldable pub paid_fields : Fields → Fields → Fields
unfolding payment_ids
paid_fields body booking = field "status" (str "confirmed") (
    field "payment_status" (str "success") (
      field "is_paid" (bool true) (
        field "payment_id" (first_of body "gateway_payment_id" body "payment_link_id") (
          payment_ids body (
            field "invoice_number" (first_of body "invoice_number" booking "invoice_number") (
              field "payment_method" (or_else (get body "payment_method") (str "payment_link")) (
                field "payment_provider" (first_of body "provider" body "gateway") (
                  field "payment_gateway" (get body "gateway")
                    (field "payment_through" (str "ushdesk") end)))))))))

unfoldable pub with_amount : Fields → Fields → Fields
with_amount body booking =
    if truthy (get body "amount") then put booking "total_amount" (get body "amount") else booking

-- the keys that are laid over the payment data that is there
unfoldable pub payment_fields : Fields → Fields → Fields
unfolding payment_ids
payment_fields body booking = field "payment_link_id" (get body "payment_link_id") (
    field "gateway_invoice_id" (get body "gateway_invoice_id") (
      field "gateway_payment_id" (get body "gateway_payment_id") (
        payment_ids body (
          field "invoice_number" (first_of body "invoice_number" booking "invoice_number") (
            field "invoice_value" (first_of body "amount" booking "total_amount") (
              field "payment_provider" (first_of body "provider" body "gateway") (
                field "payment_method" (or_else (get body "payment_method") (str "payment_link"))
                  end)))))))

unfoldable pub with_payment_data : Fields → Fields → Fields
unfolding payment_fields
with_payment_data body booking =
    let existing : Fields = elim (as_dict (get booking "payment_data")) [
      | some fields ↦ fields
      | none ↦ end
    ] in
    put booking "payment_data" (obj (merge existing (payment_fields body booking)))

-- the data of the event that confirms the booking
unfoldable pub paid_booking : Fields → Fields → Fields
unfolding with_payment_data with_amount paid_fields
paid_booking body booking =
    with_payment_data body (with_amount body (merge booking (paid_fields body booking)))

-- `dict(v)`
unfoldable pub dict_of : (Json → Option Fields) → Json → Option Fields
dict_of other (obj fields) = some fields
dict_of other v = other v

-- the booking with its id
unfoldable pub with_booking_id : String → Fields → Fields
with_booking_id booking_id booking =
    if truthy (get booking "booking_id") then booking else put booking "booking_id" (str booking_id)

module _ {E : Type 0} (u : Setup E) (shapes : Shapes) (calls : BookingCalls E) where
  abbrev booking_id_of : Fields → String
  booking_id_of body = text_or_empty u (or_else (get body "booking_id") (get body "target_id"))

  abbrev correlation_of : EventEnvelope → String
  correlation_of env = elim env.correlation_id [ some c ↦ c | none ↦ env.event_id ]

  -- The booking, the cache and the invoice are told, in this order, whether or not the ones before
  -- raised.
  unfoldable pub tell_services : EventEnvelope → Fields → E → E
  tell_services env booking e =
      let booking_id = booking_id_of env.body in
      let update : StatusUpdate = record {
        booking_id = booking_id;
        status = "confirmed";
        payment_status = some "success";
        reason = "Payment link paid";
        source = some "payment_link";
        change_by_user = none;
        change_by_user_data = null;
        correlation_id = some (correlation_of env);
      } in
      let paid : PaidInvoice = record {
        invoice_id = get env.body "invoice_id";
        invoice_name = first_of env.body "invoice_number" booking "invoice_number";
        source_document_type = "booking";
        source_document_id = booking_id;
        source_document_ref =
            or_else (get booking "booking_number")
              (first_of env.body "booking_number" env.body "target_ref");
        amount_paid = first_of env.body "amount" booking "total_amount";
        payment_id = first_of env.body "gateway_payment_id" env.body "payment_link_id";
      } in
      let updated = (calls.update_booking_status update e).1 in
      let cached =
        (calls.update_appointment_cache_payment_status (str booking_id) (str "success")
          (some (correlation_of env)) updated).1 in
      calls.mark_invoice_paid paid cached

  module _ (confirmed : EventEnvelope → Step E) where
    unfoldable pub process_booking : EventEnvelope → Option Fields → Step E
    unfolding tell_services with_booking_id
    process_booking env none w = (raised shapes.error_text, w)
    process_booking env (some fields) w =
        let booking = with_booking_id (booking_id_of env.body) fields in
        let confirmed_envelope = record env {
          event_type = "booking.confirmed";
          body = paid_booking env.body booking;
        } in
        confirmed confirmed_envelope (record w { env = tell_services env booking w.env })

    -- `PaymentLinkPaidHandler.handle`
    unfoldable pub payment_link_paid : EventEnvelope → Step E
    unfolding process_booking
    payment_link_paid env w =
        let target_type = lower (text_or_empty u (get env.body "target_type")) in
        if target_type == "booking" || not (booking_id_of env.body == "")
        then process_booking env
            (dict_of calls.dict_of_other (or_else (get env.body "booking") (obj end))) w
        else (returned, w)
