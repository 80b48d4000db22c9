-- ===== src/Invoicing/Booking.antt =====
-- `build_booking_invoice_lines` of app/invoicing/invoice_helper.py. `none` stands for the
-- AttributeError or TypeError of a payload in which a value has another shape than the code reads.
pub mod Discount
pub mod Total
pub mod Build
use ushnotice.Common.{
  ◌<>◌, String, ◌==◌, Bool, true, false, ◌&&◌, ◌||◌, Option, none, some, List, [], ◌∷◌, ◌++◌, lower,
  leb, if◌then◌else◌, ◌>>=◌,
}
use ushnotice.Common.Int.{ℤ, pos, ◌+ℤ◌, ◌-ℤ◌, ltb_ℤ, leb_ℤ, abs, min_ℤ}
use ushnotice.Json.{
  Json, null, str, bool, num, arr, obj, Items, nil, cons, Fields, get, truthy, or_else,
}
use ushnotice.Invoicing.Lines.{
  Line, Python, Accounts, d, or_get, or_dict, attr_get, one, with_price, reconcile, text_or_empty,
}

-- `[e for e in items if isinstance(e, dict)]`
unfoldable pub dicts_of : Items → List Fields
dicts_of nil = []
dicts_of (cons (obj fields) items) = fields ∷ dicts_of items
dicts_of (cons _ items) = dicts_of items

-- The dicts that a loop over `v or []` meets; a text or a dict yields texts, and none raises.
unfoldable pub dicts : Json → Option (List Fields)
unfolding dicts_of
dicts null = some []
dicts (bool b) = if b then none else some []
dicts (num is_zero t) = if is_zero then some [] else none
dicts (str t) = some []
dicts (arr items) = some (dicts_of items)
dicts (obj fields) = some []

-- a line of one unit
abbrev pub unit_line : String → Json → ℤ → Line
unit_line account name price = record {
  account_id = account;
  name = name;
  quantity = one;
  unit_price = price;
  discount = none;
  product_id = none;
}

module _ (py : Python) (accounts : Accounts) where
  abbrev revenue : String
  revenue = accounts.ushanr_revenue_account_id

  abbrev addon : String
  addon =
      if accounts.ushanr_addon_account_id == "" then revenue else accounts.ushanr_addon_account_id

  abbrev pub lower_text : Json → String
  lower_text v = lower (text_or_empty py v)

  abbrev pub is_loyalty : Fields → Bool
  is_loyalty body =
      lower_text (get body "payment_type") == "rewarded"
      || (lower_text (get body "booking_type") == "loyalty" || truthy (get body "loyalty_data"))

  abbrev pub is_voucher : Fields → Bool
  is_voucher body =
      lower_text (get body "payment_type") == "gift_voucher" || truthy (get body "voucher_id")

  -- `data.get("service_name") or service_data.get("name") or "Spa Service"`
  unfoldable pub service_name : Fields → Option Json
  service_name body = do
    n ← or_get (get body "service_name") (or_dict (get body "service_data")) "name"
    some (or_else n (str "Spa Service"))

  -- A loyalty redemption: the service's value, with all of it discounted.
  unfoldable pub loyalty_lines : Json → Fields → Option (List Line)
  loyalty_lines name body = do
    total ← or_get (get body "total_amount") (or_dict (get body "pricing")) "total"
    let line : Line = record {
      account_id = revenue;
      name = str (py.str_of name <> " — Loyalty Reward Redemption");
      quantity = one;
      unit_price = d py (or_else total (get body "arrangement_price"));
      discount = some "100";
      product_id = none;
    }
    some (line ∷ [])

  unfoldable pub base_sum : List Fields → ℤ
  base_sum [] = pos 0
  base_sum (e ∷ es) = d py (get e "base_price") +ℤ base_sum es

  unfoldable pub service_lines : List Fields → Option (List Line)
  unfolding service_name
  service_lines [] = some []
  service_lines (e ∷ es) = do
    name ← service_name e
    rest ← service_lines es
    some (unit_line revenue (str (py.str_of name)) (d py (get e "base_price")) ∷ rest)

  -- whether the prices of more than one service agree with the arrangement price
  abbrev pub priced_apart : List Fields → ℤ → Bool
  priced_apart (e ∷ f ∷ es) arrangement =
      let total = base_sum (e ∷ f ∷ es) in ltb_ℤ (pos 0) total && leb (abs (total -ℤ arrangement)) 1
  priced_apart _ arrangement = false

  -- `(e.get("service_name") or ...)` for each service, or one line for all
  unfoldable pub main_lines : Json → Fields → ℤ → Option (List Line)
  unfolding service_lines base_sum dicts
  main_lines name body arrangement = do
    entries ← dicts (get body "services")
    if priced_apart entries arrangement
        then service_lines entries
        else some (unit_line revenue name arrangement ∷ [])

  join_name : Json → String → Option String
  join_name (str t) joined =
      some (if t == "" then joined else if joined == "" then t else t <> ", " <> joined)
  join_name v joined = if truthy v then none else some joined

  -- `", ".join(...)` of the names; a name that is no text raises
  unfoldable pub join_names : List Fields → Option String
  unfolding join_name
  join_names [] = some ""
  join_names (a ∷ rest) = do joined ← join_names rest; join_name (get a "name") joined

  unfoldable pub addon_name : Json → Option String
  unfolding join_names dicts
  addon_name addons =
      if truthy addons then (do entries ← dicts addons; join_names entries) else some "Add-ons"

  unfoldable pub addon_lines : Fields → ℤ → Option (List Line)
  unfolding addon_name
  addon_lines body price =
      if ltb_ℤ (pos 0) price
      then (do name ← addon_name (get body "addons"); some (unit_line addon (str name) price ∷ []))
      else some []

  unfoldable pub extra_lines : Fields → ℤ → List Line
  extra_lines body price =
      let mins = or_else (get body "extra_minutes") (or_else (get body "extra_time") (str "")) in
      let suffix = if truthy mins then " (" <> py.str_of mins <> " min)" else "" in
      if ltb_ℤ (pos 0) price
      then unit_line revenue (str ("Extra Time" <> suffix)) price ∷ []
      else []

  unfoldable pub fee_lines : ℤ → List Line
  fee_lines price =
      if ltb_ℤ (pos 0) price then unit_line revenue (str "Service Fees") price ∷ [] else []

  -- a field of the payload, or else of its `pricing`
  unfoldable pub priced : Fields → String → String → Option ℤ
  priced body key inner = do
    v ← or_get (get body key) (or_dict (get body "pricing")) inner
    some (d py v)

  unfoldable pub arrangement_price : Fields → Option ℤ
  arrangement_price body = do
    let pricing = or_dict (get body "pricing")
    a ← or_get (get body "arrangement_price") pricing "arrangement_price"
    b ← or_get (or_else a (get body "total_amount")) pricing "total"
    some (d py b)

  unfoldable pub extra_price : Fields → Option ℤ
  extra_price body = do
    let v = or_else (get body "price_for_extra_minutes") (get body "price_for_extra_time")
    w ← or_get v (or_dict (get body "pricing")) "price_for_extra_minutes"
    some (d py w)

  -- The lines before the discount.
  unfoldable pub gross_lines : Json → Fields → Option (List Line)
  unfolding arrangement_price main_lines priced addon_lines extra_price extra_lines fee_lines
  gross_lines name body = do
    arrangement ← arrangement_price body
    services ← main_lines name body arrangement
    addon_price ← priced body "addon_price" "addon_price"
    addons ← addon_lines body addon_price
    extra ← extra_price body
    fees ← priced body "fees" "fees"
    some (services ++ (addons ++ (extra_lines body extra ++ fee_lines fees)))

-- The loop that takes the discount off the unit prices, until none is left.
unfoldable pub deduct : ℤ → List Line → List Line
deduct rem [] = []
deduct rem (l ∷ ls) =
    let deduction = min_ℤ l.unit_price rem in
    let rest = deduct (rem -ℤ deduction) ls in
    let unchanged = deduct rem ls in
    if ltb_ℤ (pos 0) l.unit_price && ltb_ℤ (pos 0) rem
    then (with_price l (l.unit_price -ℤ deduction)
        ∷ (if leb_ℤ (rem -ℤ deduction) (pos 0) then ls else rest))
    else l ∷ unchanged

-- The discount, and then what is left to the target.
unfoldable pub net_lines : ℤ → ℤ → List Line → List Line
unfolding deduct reconcile
net_lines target discount lines =
    reconcile target (if ltb_ℤ (pos 0) discount then deduct discount lines else lines)

module _ (py : Python) (accounts : Accounts) where
  -- a booking that is paid for
  unfoldable pub standard_lines : Json → Fields → Option (List Line)
  unfolding gross_lines net_lines priced
  standard_lines name body = do
    lines ← gross_lines py accounts name body
    target ← priced py accounts body "total_amount" "total"
    discount ← priced py accounts body "discount" "discount"
    some (net_lines target discount lines)

  unfoldable pub build_booking_invoice_lines : Fields → Option (List Line)
  unfolding standard_lines loyalty_lines service_name
  build_booking_invoice_lines body = do
    name ← service_name py accounts body
    if is_loyalty py accounts body
        then loyalty_lines py accounts name body
        else if is_voucher py accounts body
        then some []
        else standard_lines name body
