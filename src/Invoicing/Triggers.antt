-- ===== src/Invoicing/Triggers.antt =====
-- The triggers of app/invoicing/triggers.py.
pub mod Gates
use ushnotice.Common.{
  String, ◌==◌, ◌<>◌, Bool, true, false, ◌&&◌, ◌||◌, not, Option, none, some, List, [], ◌∷◌, lower,
  ◌>>=◌, if◌then◌else◌,
}
use ushnotice.Json.{Json, null, bool, str, obj, Fields, get, truthy, or_else}
use ushnotice.Invoicing.Lines.{Line, or_get, or_dict, text_or_empty}
use ushnotice.Invoicing.Booking.{build_booking_invoice_lines}
use ushnotice.Invoicing.Shop.{build_shop_order_invoice_lines}
use ushnotice.Invoicing.Gifts.{build_gift_purchase_invoice_lines, build_voucher_invoice_lines}
use ushnotice.Invoicing.Accounting.{
  Called, answered, refused, Partner, Invoice, CreditNote, Accounting, Draft, or_gets,
  invoicing_enabled, post, forget,
}

-- `v is True`
abbrev is_true : Json → Bool
is_true (bool b) = b
is_true _ = false

abbrev is_text : String → Json → Bool
is_text t (str u) = u == t
is_text t _ = false

abbrev is_true_in : Json → String → Bool
is_true_in (obj fields) key = is_true (get fields key)
is_true_in _ key = false

-- Whether the payload says outright that the booking is paid.
unfoldable pub is_explicit_paid : Fields → Bool
is_explicit_paid body =
    is_true (get body "is_paid")
    || (is_text "true" (get body "is_paid") || is_true_in (get body "payment_data") "is_paid")

abbrev pub is_open_status : String → Bool
is_open_status t = t == "pending" || t == "not_initiated" || t == "unpaid"

abbrev pub is_paid_status : String → Bool
is_paid_status t = t == "paid" || t == "success" || t == "rewarded" || t == "completed"

module _ {E : Type 0} (a : Accounting E) where
  abbrev text : Json → String
  text v = text_or_empty a.python v

  -- `str(v or "").strip().lower()`
  abbrev pub status_text : Json → String
  status_text v = lower (a.strip (text v))

  -- the bookings without an invoice for want of a payment
  unfoldable pub is_unpaid : Fields → Bool
  unfolding is_explicit_paid
  is_unpaid body =
      let status = status_text (get body "payment_status") in
      is_open_status status || (not (is_paid_status status) && not (is_explicit_paid body))

  -- the redemptions of a voucher that was invoiced when it was bought
  unfoldable pub is_redemption : Fields → Json → Bool
  is_redemption body voucher =
      let v_id = a.strip (text voucher) in
      let p_method = status_text (get body "payment_method") in
      status_text (get body "payment_type") == "gift_voucher"
      || (not (v_id == "") && not (lower v_id == "none"))
      || (p_method == "voucher" || p_method == "gift_voucher")

  -- The draft of an invoice, with none where the code returns before the services are called; the
  -- outer none is an exception.
  unfoldable pub with_lines : List Line → Draft → Option Draft
  with_lines [] draft = none
  with_lines (l ∷ ls) draft = some draft

  unfoldable pub booking_draft : Fields → Option (Option Draft)
  unfolding with_lines or_gets
  booking_draft body = do
    let customer = or_dict (get body "customer_data")
    name ← or_gets (get body "customer_name") customer ("name" ∷ [])
    phone ←
        or_gets (get body "customer_phone") customer
          ("phone" ∷ "phone_number" ∷ "contact_number" ∷ [])
    email ← or_gets (get body "customer_email") customer ("email" ∷ [])
    lines ← build_booking_invoice_lines a.python a.accounts body
    let booking_id = text (get body "booking_id")
    let number = text (get body "booking_number")
    let service = get body "service_name"
    let status = lower (text (get body "payment_status"))
    let partner : Partner = record {
      company_id = a.accounts.ushanr_company_id;
      external_id = text (get body "customer_id");
      name = or_else name (str "");
      phone = or_else phone (str "");
      email = some (or_else email (str ""));
    }
    let draft : Draft = record {
      partner = partner;
      invoice = λ partner_id amount. record {
        company_id = a.accounts.ushanr_company_id;
        partner_id = partner_id;
        journal_id = a.accounts.ushanr_ar_journal_id;
        source_document_type = "booking";
        source_document_id = booking_id;
        source_document_ref = number;
        currency_code = "KWD";
        notes =
            ("Booking " <> (if number == "" then booking_id else number))
            <> (if truthy service then " — " <> a.python.str_of service else "");
        lines = lines;
        payment_status = if status == "" then "success" else status;
        amount_paid = amount;
        payment_id = text (get body "payment_id");
      };
      total_amount = get body "total_amount";
      correlation_id = none;
    }
    some (with_lines lines draft)

  -- What a draft comes to: `some none` is `None`, and none an exception.
  unfoldable pub post_draft : Option (Option Draft) → E → Option (Option Json) × E
  unfolding post
  post_draft none e = (none, e)
  post_draft (some none) e = (some none, e)
  post_draft (some (some draft)) e = post a draft e

  -- after the voucher's id is read
  pub booking_of_voucher : Fields → Option Json → E → Option (Option Json) × E
  unfolding booking_draft post_draft is_redemption
  booking_of_voucher body none e = (none, e)
  booking_of_voucher body (some voucher) e =
      if is_redemption body voucher then (some none, e) else post_draft (booking_draft body) e

  unfoldable pub is_gated : Fields → Bool
  unfolding is_unpaid invoicing_enabled
  is_gated body =
      not (invoicing_enabled a) || (text (get body "booking_id") == "" || is_unpaid body)

  unfoldable pub trigger_booking_invoice : Fields → E → Option (Unit {0}) × E
  unfolding booking_of_voucher is_gated
  trigger_booking_invoice body e =
      if is_gated body
      then (some tt, e)
      else forget (
          booking_of_voucher body
            (or_get (get body "voucher_id") (or_dict (get body "voucher_data")) "id") e)
