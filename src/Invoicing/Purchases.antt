-- ===== src/Invoicing/Purchases.antt =====
-- The triggers of app/invoicing/triggers.py for shop orders, gifts and vouchers, and the credit note.
use ushnotice.Common.{
  String, ◌==◌, ◌<>◌, ◌||◌, not, Option, none, some, List, [], ◌∷◌, ◌>>=◌, if◌then◌else◌,
}
use ushnotice.Json.{Json, str, Fields, get, or_else}
use ushnotice.Invoicing.Lines.{Line, or_get, or_dict, attr_get, text_or_empty}
use ushnotice.Invoicing.Shop.{build_shop_order_invoice_lines}
use ushnotice.Invoicing.Gifts.{build_gift_purchase_invoice_lines, build_voucher_invoice_lines}
use ushnotice.Invoicing.Accounting.{
  Called, answered, refused, CreditNote, Accounting, Draft, or_gets, invoicing_enabled, closed,
  forget,
}
use ushnotice.Invoicing.Triggers.{with_lines, post_draft}

module _ {E : Type 0} (a : Accounting E) where
  abbrev text : Json → String
  text v = text_or_empty a.python v

  -- a draft for a customer without an email; the invoice counts as paid
  abbrev draft_of :
      String
      → Json
      → Json
      → String
      → String
      → String
      → String
      → String
      → Fields
      → List Line
      → Option String
      → Draft
  draft_of external_id name phone source_type source_id ref currency notes body lines
        correlation_id =
      record {
        partner = record {
          company_id = a.accounts.ushanr_company_id;
          external_id = external_id;
          name = name;
          phone = phone;
          email = none;
        };
        invoice = λ partner_id amount. record {
          company_id = a.accounts.ushanr_company_id;
          partner_id = partner_id;
          journal_id = a.accounts.ushanr_ar_journal_id;
          source_document_type = source_type;
          source_document_id = source_id;
          source_document_ref = ref;
          currency_code = currency;
          notes = notes;
          lines = lines;
          payment_status = "paid";
          amount_paid = amount;
          payment_id = text (get body "payment_id");
        };
        total_amount = get body "total_amount";
        correlation_id = correlation_id;
      }

  unfoldable pub shop_draft : Fields → Option (Option Draft)
  unfolding with_lines or_gets
  shop_draft body = do
    let customer = or_dict (get body "customer_data")
    name ← or_gets (get body "customer_name") customer ("name" ∷ [])
    phone ← or_gets (get body "customer_phone") customer ("phone" ∷ "contact_number" ∷ [])
    lines ← build_shop_order_invoice_lines a.python a.accounts body
    let order_id = text (get body "order_id")
    let number = text (get body "order_number")
    let currency = a.python.str_of (or_else (get body "currency") (str "KWD"))
    let notes = "Shop Order " <> (if number == "" then order_id else number)
    let draft : Draft =
        draft_of (text (get body "customer_id")) (or_else name (str "")) (or_else phone (str ""))
          "shop_order" order_id number currency notes body lines none
    some (with_lines a lines draft)

  unfoldable pub trigger_shop_order_invoice : Fields → E → Option (Unit {0}) × E
  unfolding shop_draft post_draft invoicing_enabled
  trigger_shop_order_invoice body e =
      if not (invoicing_enabled a) || text (get body "order_id") == ""
      then (some tt, e)
      else forget (post_draft a (shop_draft body) e)

  unfoldable pub gift_draft : Fields → Option (Option Draft)
  unfolding with_lines or_gets
  gift_draft body = do
    let sender = or_dict (get body "sender_data")
    named ← attr_get sender "name"
    phone ← or_gets (str "") sender ("phone_number" ∷ "phone" ∷ [])
    lines ← build_gift_purchase_invoice_lines a.python a.accounts body
    let purchase_id = text (get body "id")
    let sender_id = text (get body "sender_id")
    let token = text (get body "public_token")
    let name = or_else named (or_else (get body "sender_name") (str ""))
    let notes = "Gift Voucher Purchase" <> (if token == "" then "" else " — " <> token)
    let draft : Draft =
        draft_of (if sender_id == "" then purchase_id else sender_id) name (or_else phone (str ""))
          "gift_voucher_purchase" purchase_id token "KWD" notes body lines none
    some (with_lines a lines draft)

  unfoldable pub trigger_gift_purchase_invoice : Fields → E → Option (Unit {0}) × E
  unfolding gift_draft post_draft invoicing_enabled
  trigger_gift_purchase_invoice body e =
      if not (invoicing_enabled a) || text (get body "id") == ""
      then (some tt, e)
      else forget (post_draft a (gift_draft body) e)

  abbrev voucher_id : Fields → String
  voucher_id body = text (or_else (get body "id") (get body "voucher_id"))

  unfoldable pub voucher_draft : Option String → Fields → Option (Option Draft)
  unfolding with_lines or_gets
  voucher_draft correlation_id body = do
    let sender = or_dict (or_else (get body "sender_details") (get body "sender_data"))
    sender_id ← or_get (get body "sender_id") sender "id"
    named ← attr_get sender "name"
    phone ← or_gets (str "") sender ("phone_number" ∷ "phone" ∷ [])
    lines ← build_voucher_invoice_lines a.python a.accounts body
    let number = text (get body "voucher_number")
    let name = or_else named (or_else (get body "sender_name") (str ""))
    let external = if text sender_id == "" then voucher_id body else text sender_id
    let notes = "Gift Voucher" <> (if number == "" then "" else " " <> number)
    let draft : Draft =
        draft_of external name (or_else phone (str "")) "gift_voucher" (voucher_id body) number
          "KWD" notes body lines correlation_id
    some (with_lines a lines draft)

  unfoldable pub trigger_voucher_invoice : Fields → Option String → E → Option (Option Json) × E
  unfolding voucher_draft post_draft invoicing_enabled
  trigger_voucher_invoice body correlation_id e =
      if not (invoicing_enabled a) || voucher_id body == ""
      then (some none, e)
      else post_draft a (voucher_draft correlation_id body) e

  credited : Called Json × E → Option Json × E
  credited (refused, e) = (none, e)
  credited (answered result, e) = elim (attr_get result "invoice_id") [
    | none ↦ (none, e)
    | some _ ↦ (some result, e)
  ]

  -- An answer that is no dict raises where the log reads it.
  unfoldable pub trigger_credit_note : CreditNote → E → Option (Option Json) × E
  unfolding credited invoicing_enabled closed
  trigger_credit_note note e =
      if not (invoicing_enabled a) || note.source_document_id == ""
      then (some none, e)
      else closed a (credited (a.create_credit_note note e))
