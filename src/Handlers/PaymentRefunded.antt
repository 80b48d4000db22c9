-- ===== src/Handlers/PaymentRefunded.antt =====
-- `PaymentRefundedHandler` of app/events/handlers/payment/payment_refunded.py: the messages, and then
-- the credit note.
pub mod Frame
use ushnotice.Common.{String, ◌==◌, ◌<>◌, Option, none, some, false, if◌then◌else◌}
use ushnotice.Json.{Json, null, str, Fields, field, end, get, or_else, truthy}
use ushnotice.Store.{World}
use ushnotice.Events.Envelope.{EventEnvelope}
use ushnotice.Events.Handler.{Outcome, returned, raised}
use ushnotice.Invoicing.Accounting.{Accounting, CreditNote}
use ushnotice.Invoicing.Purchases.{trigger_credit_note}
use ushnotice.Handlers.Messages.{
  Setup, Step, then_do, notify, sms_of, email_of, text_or_empty, get_default,
}
use ushnotice.Handlers.Payment.{payment_request, reference, subject_with}

-- the note of a document, with the defaults of `trigger_credit_note`
abbrev pub note_of : String → String → Option String → CreditNote
note_of source_type source_id notes = record {
  source_document_type = source_type;
  source_document_id = source_id;
  notes = notes;
  cancellation_fee = null;
  refund_amount = null;
  refund_method = null;
  refund_number = null;
  branch_id = null;
  processed_by = null;
  record_refund_payment = false;
}

module _ {E : Type 0} (u : Setup E) (accounting : Accounting E) where
  unfoldable pub refund_context : Fields → Fields
  refund_context body = field "booking_reference" (reference u body) (
      field "amount" (or_else (get body "refund_amount") (get body "amount")) (
        field "currency" (get_default body "currency" (str "KWD"))
          (field "refund_id" (or_else (get body "refund_id") (str "")) end)))

  -- What the closing of the client raises leaves the handler.
  unfoldable pub after_credit : World E → Option (Option Json) × E → Outcome × World E
  after_credit w (none, e) = (raised accounting.closing_error, record w { env = e })
  after_credit w (some _, e) = (returned, record w { env = e })

  unfoldable pub credit : CreditNote → Step E
  unfolding after_credit
  credit note w = after_credit w (trigger_credit_note accounting note w.env)

  -- A credit note for the booking, or else for the voucher.
  unfoldable pub credit_refund : Fields → Step E
  unfolding credit
  credit_refund body w =
      let booking_id = text_or_empty u (get body "booking_id") in
      let voucher_id = text_or_empty u (get body "voucher_id") in
      let ref = reference u body in
      let notes = if truthy ref then some ("Refund — " <> u.services.str_of ref) else none in
      if booking_id == ""
      then (if voucher_id == ""
          then (returned, w)
          else credit (note_of "gift_voucher" voucher_id (some "Refund — Gift Voucher")) w)
      else credit (note_of "booking" booking_id notes) w

  unfoldable pub payment_refunded : EventEnvelope → Step E
  unfolding then_do notify payment_request refund_context credit_refund
  payment_refunded env =
      let context = refund_context env.body in
      then_do
        (notify u (sms_of u env.body) (payment_request u env "booking/payment_failed" context ""))
        (then_do
          (notify u (email_of u env.body) (
            payment_request u env "booking/payment_failed" context (
              subject_with u "Refund Confirmation" (reference u env.body)
                "USHSPA Refund Confirmation")))
          (credit_refund env.body))
