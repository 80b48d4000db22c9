-- ===== src/Handlers/Refunds.antt =====
-- `RefundCompletedHandler` and `RefundApprovedHandler` of app/events/handlers/booking: the credit note
-- of a refund, and its link to the refund. Both send no message.
pub mod Frame
use ushnotice.Common.{
  String, ◌==◌, ◌<>◌, ◌&&◌, ◌||◌, not, Bool, true, false, Option, none, some, lower, if◌then◌else◌,
}
use ushnotice.Json.{Json, null, str, Fields, get, or_else, truthy, as_dict}
use ushnotice.Events.Envelope.{EventEnvelope}
use ushnotice.Store.{World}
use ushnotice.Events.Handler.{Outcome, returned, raised}
use ushnotice.Invoicing.Accounting.{Accounting, CreditNote}
use ushnotice.Invoicing.Purchases.{trigger_credit_note}
use ushnotice.Handlers.Messages.{Setup, Step, text_or_empty, optional}
use ushnotice.Handlers.Services.{BookingCalls, RefundLink}

-- `t or None` as a value
abbrev optional_json : String → Json
optional_json t = if t == "" then null else str t

-- `cn_result.get(key) if cn_result else None`: the answer is none or a dict
unfoldable pub note_field : Option Json → String → Json
note_field none key = null
note_field (some v) key =
    if truthy v then elim (as_dict v) [ some fields ↦ get fields key | none ↦ null ] else null

module _ {E : Type 0} (u : Setup E) (accounting : Accounting E) (calls : BookingCalls E) where
  abbrev text : Fields → String → String
  text body key = text_or_empty u (get body key)

  -- `str(data.get(key) or default)`
  abbrev text_or : Fields → String → String → String
  text_or body key default = u.services.str_of (or_else (get body key) (str default))

  unfoldable pub refund_note : Fields → Json → String → String → Bool → CreditNote
  refund_note body amount refund_method notes record_refund_payment = record {
    source_document_type = "booking";
    source_document_id = text body "booking_id";
    notes = some (u.services.strip notes);
    cancellation_fee = str (text_or body "cancellation_fee" "0.000");
    refund_amount = str (text_or_empty u amount);
    refund_method = str refund_method;
    refund_number = str (text body "refund_number");
    branch_id = optional_json (text body "branch_id");
    processed_by = optional_json (text body "processed_by");
    record_refund_payment = record_refund_payment;
  }

  -- The note's number is linked to the refund, if there is one.
  unfoldable pub link_note : EventEnvelope → Option Json × E → E
  unfolding note_field
  link_note env (cn_result, e) =
      let number = note_field cn_result "invoice_name" in
      let note_id = note_field cn_result "invoice_id" in
      let refund_id = text env.body "refund_id" in
      let refund_number = text env.body "refund_number" in
      let booking_id = text env.body "booking_id" in
      let link : RefundLink = record {
        refund_id = optional refund_id;
        booking_id = optional booking_id;
        refund_number = optional refund_number;
        credit_note_number = number;
        credit_note_id = if truthy note_id then some (u.services.str_of note_id) else none;
        correlation_id = env.correlation_id;
      } in
      if truthy number
        && (not (refund_id == "") || (not (refund_number == "") || not (booking_id == "")))
      then calls.link_refund_credit_note link e
      else e

  -- What the closing of the accounts' client raises leaves the handler, before the link.
  unfoldable pub link_after : EventEnvelope → World E → Option (Option Json) × E → Outcome × World E
  unfolding link_note
  link_after env w (none, e) = (raised accounting.closing_error, record w { env = e })
  link_after env w (some cn_result, e) = (returned, record w { env = link_note env (cn_result, e) })

  unfoldable pub credit_and_link : EventEnvelope → CreditNote → Step E
  unfolding link_after
  credit_and_link env note w =
      if note.source_document_id == ""
      then link_after env w (some none, w.env)
      else link_after env w (trigger_credit_note accounting note w.env)

  abbrev reference_of : Fields → String
  reference_of body =
      text_or_empty u (or_else (get body "booking_reference") (get body "booking_number"))

  unfoldable pub completed_note : Fields → CreditNote
  unfolding refund_note
  completed_note body =
      let refund_method = text_or body "refund_method" "cash" in
      refund_note body (or_else (get body "refund_amount") (get body "amount")) refund_method
        ("Refund "
          <> text body "refund_number"
          <> " ("
          <> calls.upper refund_method
          <> ") for booking "
          <> reference_of body)
        true

  unfoldable pub refund_completed : EventEnvelope → Step E
  unfolding credit_and_link
  refund_completed env = credit_and_link env (completed_note env.body)

  unfoldable pub approved_note : Fields → String → CreditNote
  unfolding refund_note
  approved_note body refund_method =
      refund_note body
        (or_else (get body "refund_amount")
          (or_else (get body "approved_amount") (get body "amount")))
        refund_method
        ("Approved refund "
          <> text body "refund_number"
          <> " (MONEY) for booking "
          <> reference_of body)
        false

  abbrev approved_method : Fields → String
  approved_method body = u.services.strip (lower (text_or body "refund_method" "loyalty_points"))

  -- A refund in points has no credit note.
  unfoldable pub is_in_points : String → Bool
  is_in_points m = m == "loyalty_points" || (m == "loyalty" || m == "points")

  unfoldable pub refund_approved : EventEnvelope → Step E
  unfolding credit_and_link
  refund_approved env w =
      let refund_method = approved_method env.body in
      if is_in_points refund_method
      then (returned, w)
      else credit_and_link env (approved_note env.body refund_method) w
