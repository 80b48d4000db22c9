-- ===== src/Tests/Invoices.antt =====
-- Invoices of a booking and of a shop order, and payloads for which there is none.
use mathlib.Core.Option
use ushnotice.Common
use ushnotice.Common.{
  ◌≡◌, ◌↔◌, refl, String, ◌==◌, true, false, Option, none, some, List, [], ◌∷◌, inl, if◌then◌else◌,
}
use ushnotice.Common.Int.{ℤ, pos, ◌+ℤ◌, ◌-ℤ◌, ◌*ℤ◌}
use ushnotice.Json.{Json, str, obj, Fields, field, end}
use ushnotice.Invoicing.Lines.{
  Line, Python, Accounts, millionths, current_sum, reconcile, or_get, d, decimal_or,
}
use ushnotice.Invoicing.Booking.{
  unit_line, deduct, gross_lines, service_name, priced, is_loyalty, is_voucher,
  build_booking_invoice_lines,
}
use ushnotice.Invoicing.Booking.Discount.{price_sum, charge, min_ℕ, price_sum-deduct}
use ushnotice.Invoicing.Booking.Total.{is_ample}
use ushnotice.Invoicing.Booking.Build.{current_sum-build}
use ushnotice.Invoicing.Shop.Laws.{current_sum-reconcile_iff}
use ushnotice.Invoicing.Accounting.{Accounting, answered}
use ushnotice.Invoicing.Triggers.{is_unpaid, trigger_booking_invoice}
use ushnotice.Invoicing.Triggers.{booking_draft}
use ushnotice.Common.{◌⊎◌}
use ushnotice.Invoicing.Accounting.{refused}
use ushnotice.Invoicing.Triggers.Gates.{
  ClosingRaised, trigger_booking_invoice_raised, trigger_booking_invoice_quiet,
}

-- amounts that the payloads below hold
abbrev amounts : Json → Option ℤ
amounts (str t) =
    if t == "20.000"
    then some (pos 20000)
    else if t == "5.000"
    then some (pos 5000)
    else if t == "2.001"
    then some (pos 2001)
    else if t == "23.000"
    then some (pos 23000)
    else none
amounts _ = none

abbrev text : Json → String
text (str t) = t
text _ = ""

abbrev python : Python
python = record { decimal = amounts; str_of = text }

abbrev accounts : Accounts
accounts = record {
  ushanr_company_id = "c-1";
  ushanr_ar_journal_id = "j-1";
  ushanr_revenue_account_id = "r-1";
  ushanr_addon_account_id = "";
}

abbrev massage : Line
massage = unit_line "r-1" (str "Massage") (pos 20000)

abbrev add_ons : Line
add_ons = unit_line "r-1" (str "Add-ons") (pos 5000)

price_sum-deduct_example :
    price_sum (deduct (pos 22000) (massage ∷ add_ons ∷ []))
      +ℤ pos (min_ℕ 22000 (charge (massage ∷ add_ons ∷ [])))
    ≡ price_sum (massage ∷ add_ons ∷ [])
price_sum-deduct_example = price_sum-deduct 22000 (massage ∷ add_ons ∷ [])

abbrev booking : Fields
booking = field "service_name" (str "Massage") (
    field "arrangement_price" (str "20.000") (
      field "addon_price" (str "5.000")
        (field "discount" (str "2.001") (field "total_amount" (str "23.000") end))))

named : service_name python accounts booking ≡ some (str "Massage")
unfolding service_name or_get ushnotice.Json.truthy ushnotice.Json.get ushnotice.Json.or_else
named = refl

grossed : gross_lines python accounts (str "Massage") booking ≡ some (massage ∷ add_ons ∷ [])
unfolding gross_lines or_get ushnotice.Json.truthy ushnotice.Json.get ushnotice.Json.or_else d
    decimal_or
grossed = refl

targeted : priced python accounts booking "total_amount" "total" ≡ some (pos 23000)
unfolding priced or_get ushnotice.Json.truthy ushnotice.Json.get d decimal_or
targeted = refl

discounted : priced python accounts booking "discount" "discount" ≡ some (pos 2001)
unfolding priced or_get ushnotice.Json.truthy ushnotice.Json.get d decimal_or
discounted = refl

not_loyal : is_loyalty python accounts booking ≡ false
unfolding Common.lower ushnotice.Json.truthy ushnotice.Json.get
not_loyal = refl

not_redeemed : is_voucher python accounts booking ≡ false
unfolding Common.lower ushnotice.Json.truthy ushnotice.Json.get
not_redeemed = refl

ample : Common.any is_ample (deduct (pos 2001) (massage ∷ add_ons ∷ [])) ≡ true
unfolding deduct Common.any ◌-ℤ◌
ample = refl

current_sum-build_example :
    Option.map current_sum (build_booking_invoice_lines python accounts booking)
    ≡ some (millionths (pos 23000))
unfolding ◌-ℤ◌ price_sum ◌+ℤ◌ charge
current_sum-build_example =
    current_sum-build python accounts booking (str "Massage") (massage ∷ add_ons ∷ []) (pos 23000)
      2001 named grossed targeted discounted not_loyal not_redeemed refl (omega Common.arith) ample

-- three items at 3.333 for a total of 10.000
abbrev soaps : Line
soaps = record {
  account_id = "r-1";
  name = str "Soap";
  quantity = pos 3000;
  unit_price = pos 3333;
  discount = none;
  product_id = some "p-1";
}

gap : millionths (pos 10000) -ℤ current_sum (soaps ∷ []) ≡ millionths (pos 1)
unfolding ◌-ℤ◌ ◌*ℤ◌ ◌+ℤ◌ current_sum
gap = refl

current_sum-reconcile_iff_example :
    (current_sum (reconcile (pos 10000) (soaps ∷ [])) ≡ millionths (pos 10000))
    ↔ ◌≡◌ {A = Common.ℕ} 3000 1000
unfolding ◌+ℤ◌
current_sum-reconcile_iff_example =
    current_sum-reconcile_iff (pos 10000) (pos 1) soaps [] 3000 refl gap (omega Common.arith) refl
      refl refl

-- The services only write down that they were called.
abbrev Log : Type 0
Log = List String

abbrev accounting : Accounting Log
accounting = record {
  python = python;
  accounts = accounts;
  exact = λ v. some "23.000";
  strip = λ t. t;
  ensure_partner = λ p e. (answered (str "partner"), "partner" ∷ e);
  create_invoice = λ i e. (answered (obj end), "invoice" ∷ e);
  create_credit_note = λ n e. (answered (obj end), "credit note" ∷ e);
  link_payment_invoice = λ l e. (answered tt, "link" ∷ e);
  link_booking_invoice = λ l e. (answered tt, "booking link" ∷ e);
  aclose = λ e. (answered tt, e);
  closing_error = "RuntimeError";
}

-- a customer that is no dict
abbrev misshapen : Fields
misshapen =
    field "booking_id" (str "b-1")
      (field "payment_status" (str "paid") (field "customer_data" (str "Sara") booking))

misshapen_raises : (trigger_booking_invoice accounting misshapen []).0 ≡ none
unfolding trigger_booking_invoice ushnotice.Json.truthy ushnotice.Json.get Common.lower or_get
    ushnotice.Json.or_else ushnotice.Invoicing.Accounting.forget
misshapen_raises = refl

-- Services that answer, with a client that cannot be closed.
abbrev unclosed : Accounting Log
unclosed = record accounting { aclose = λ e. (refused, "close" ∷ e) }

abbrev paid : Fields
paid = field "booking_id" (str "b-1") (field "payment_status" (str "paid") booking)

unclosed_raises :
    trigger_booking_invoice unclosed paid [] ≡ (none, "close" ∷ "invoice" ∷ "partner" ∷ [])
unfolding trigger_booking_invoice ushnotice.Json.truthy ushnotice.Json.get Common.lower
    ushnotice.Invoicing.Accounting.forget or_get ushnotice.Json.or_else build_booking_invoice_lines
    d decimal_or ◌-ℤ◌ ◌*ℤ◌ ◌+ℤ◌
unclosed_raises = refl

trigger_booking_invoice_raised_example :
    ((trigger_booking_invoice unclosed paid []).1 ≡ [])
    ⊎ ClosingRaised unclosed
        (booking_draft unclosed paid)
        []
        (trigger_booking_invoice unclosed paid []).1
trigger_booking_invoice_raised_example =
    trigger_booking_invoice_raised unclosed paid [] (Common.ap (λ r. r.0) unclosed_raises)

abbrev pending : Fields
pending = field "booking_id" (str "b-1") (field "payment_status" (str "pending") booking)

pending_unpaid : is_unpaid accounting pending ≡ true
unfolding is_unpaid Common.lower ushnotice.Json.truthy ushnotice.Json.get
pending_unpaid = refl

trigger_booking_invoice_quiet_example : (trigger_booking_invoice accounting pending []).1 ≡ []
trigger_booking_invoice_quiet_example =
    trigger_booking_invoice_quiet accounting pending [] (inl pending_unpaid)
