-- ===== src/Invoicing/Accounting.antt =====
-- The services that app/invoicing/triggers.py calls, and its code that the triggers share. The dates
-- and the log are left out, and so is the closing of the client of ushbooknpay, whose exceptions the
-- code ignores.
use ushnotice.Common.{
  String, ◌==◌, Bool, true, ◌&&◌, not, Option, none, some, List, [], ◌∷◌, ◌>>=◌, if◌then◌else◌,
}
use ushnotice.Json.{Json, num, truthy, or_else}
use ushnotice.Invoicing.Lines.{Line, Python, Accounts, attr_get, or_get}

-- A call of a service answers or raises.
pub data Called (A : Type 0) : Type 0 where
  answered : A → Called A
  refused : Called A

-- the arguments of `ensure_partner`
pub record Partner : Type 0 where
  pub company_id : String
  pub external_id : String
  pub name : Json
  pub phone : Json
  pub email : Option Json

-- the arguments of `create_invoice`, which is always called with is_paid
pub record Invoice : Type 0 where
  pub company_id : String
  pub partner_id : Json
  pub journal_id : String
  pub source_document_type : String
  pub source_document_id : String
  pub source_document_ref : String
  pub currency_code : String
  pub notes : String
  pub lines : List Line
  pub payment_status : String
  pub amount_paid : String
  pub payment_id : String

-- the arguments of `create_credit_note` that do not come from the settings
pub record CreditNote : Type 0 where
  pub source_document_type : String
  pub source_document_id : String
  pub notes : Option String
  pub cancellation_fee : Json
  pub refund_amount : Json
  pub refund_method : Json
  pub refund_number : Json
  pub branch_id : Json
  pub processed_by : Json
  pub record_refund_payment : Bool

-- the arguments of `link_payment_invoice` and `link_booking_invoice`
pub record Link : Type 0 where
  pub source_type : String
  pub source_id : String
  pub invoice_number : Json
  pub correlation_id : Option String

-- UshanrClient and UshBookNPayClient, with Python's functions and the settings
pub record Accounting (E : Type 0) : Type 0 where
  pub python : Python
  pub accounts : Accounts
  -- the text of `Decimal(str(v))`, none where it raises
  pub exact : Json → Option String
  pub strip : String → String
  pub ensure_partner : Partner → E → Called Json × E
  pub create_invoice : Invoice → E → Called Json × E
  pub create_credit_note : CreditNote → E → Called Json × E
  pub link_payment_invoice : Link → E → Called Unit × E
  pub link_booking_invoice : Link → E → Called Unit × E
  -- `aclose` of UshanrClient, and the message of its exception
  pub aclose : E → Called Unit × E
  pub closing_error : String

-- `a or v.get(k1) or v.get(k2) …`
unfoldable pub or_gets : Json → Json → List String → Option Json
or_gets a v [] = some a
or_gets a v (key ∷ keys) = do b ← or_get a v key; or_gets b v keys

-- What an invoice needs before the services are called.
pub record Draft : Type 0 where
  pub partner : Partner
  pub invoice : Json → String → Invoice
  pub total_amount : Json
  pub correlation_id : Option String

module _ {E : Type 0} (a : Accounting E) where
  -- `_invoicing_enabled`
  unfoldable pub invoicing_enabled : Bool
  invoicing_enabled =
      not (a.accounts.ushanr_company_id == "")
      && (not (a.accounts.ushanr_ar_journal_id == "")
          && not (a.accounts.ushanr_revenue_account_id == ""))

  -- after the payments are linked, whose exceptions are only logged
  link_booking : Link → Called Unit × E → E
  link_booking l (refused, e) = e
  link_booking l (answered _, e) =
      if l.source_type == "booking" then (a.link_booking_invoice l e).1 else e

  -- `_link_invoice_to_payments` after the number is read
  unfoldable pub link_number : Link → E → E
  unfolding link_booking
  link_number l e =
      if truthy l.invoice_number then link_booking l (a.link_payment_invoice l e) else e

  link_to_number : String → String → Option String → Json → Option Json → E → Option Json × E
  unfolding link_number
  link_to_number source_type source_id correlation_id result none e = (none, e)
  link_to_number source_type source_id correlation_id result (some number) e =
      let l : Link = record {
        source_type = source_type;
        source_id = source_id;
        invoice_number = number;
        correlation_id = correlation_id;
      } in
      (some result, link_number l e)

  -- The invoice's answer, after it is linked to the payments; an answer that is no dict raises.
  linked : Draft → Invoice → Called Json × E → Option Json × E
  unfolding link_to_number
  linked draft invoice (refused, e) = (none, e)
  linked draft invoice (answered result, e) =
      link_to_number invoice.source_document_type invoice.source_document_id draft.correlation_id
        result (attr_get result "invoice_name") e

  invoiced : Draft → Json → Option String → E → Option Json × E
  unfolding linked
  invoiced draft partner_id none e = (none, e)
  invoiced draft partner_id (some amount) e =
      let invoice = draft.invoice partner_id amount in
      linked draft invoice (a.create_invoice invoice e)

  partnered : Draft → Called Json × E → Option Json × E
  unfolding invoiced
  partnered draft (refused, e) = (none, e)
  partnered draft (answered partner_id, e) =
      invoiced draft partner_id (a.exact (or_else draft.total_amount (num true "0"))) e

  -- The `try` of a trigger: the partner, the invoice and its links. An exception is only logged.
  unfoldable pub attempt : Draft → E → Option Json × E
  unfolding partnered
  attempt draft e = partnered draft (a.ensure_partner draft.partner e)

  unfoldable pub closed_with : Option Json → Called Unit × E → Option (Option Json) × E
  closed_with result (answered _, e) = (some result, e)
  closed_with result (refused, e) = (none, e)

  -- The `finally`: the client is closed, and an exception of that is not caught; none stands for it.
  unfoldable pub closed : Option Json × E → Option (Option Json) × E
  unfolding closed_with
  closed (result, e) = closed_with result (a.aclose e)

  unfoldable pub post : Draft → E → Option (Option Json) × E
  unfolding attempt closed
  post draft e = closed (attempt draft e)

-- what a trigger without a result returns
unfoldable pub forget : {E : Type 0} → Option (Option Json) × E → Option (Unit {0}) × E
forget (none, e) = (none, e)
forget (some result, e) = (some tt, e)
