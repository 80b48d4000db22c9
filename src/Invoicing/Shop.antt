-- ===== src/Invoicing/Shop.antt =====
-- `build_shop_order_invoice_lines` of app/invoicing/invoice_helper.py. A quotient of two amounts is
-- rounded once, where Decimal first cuts it to 28 digits.
pub mod Laws
use ushnotice.Common.{
  ◌*◌, ◌&&◌, Option, none, some, List, [], ◌∷◌, ◌>>=◌, if◌then◌else◌, Bool, true, false,
}
use ushnotice.Common.Int.{
  ℤ, pos, negsuc, pos_part, neg_part, ◌-ℤ◌, ◌*ℤ◌, ltb_ℤ, leb_ℤ, min_ℤ, abs, round_half_even,
}
use ushnotice.Json.{
  Json, null, str, num, bool, arr, obj, Items, nil, cons, Fields, get, truthy, or_else,
}
use ushnotice.Invoicing.Lines.{
  Line, Python, Accounts, d, decimal_or, one, with_price, reconcile, text_or_empty, millionths,
}
use ushnotice.Invoicing.Booking.{unit_line, dicts}

-- `(a / q).quantize(Decimal("0.001"))` for a in millionths and q in thousandths
unfoldable pub divide : ℤ → ℤ → ℤ
divide a q =
    let n = round_half_even (abs a) (abs q) in
    if ltb_ℤ a (pos 0)
    then (if ltb_ℤ q (pos 0) then pos n else pos 0 -ℤ pos n)
    else if ltb_ℤ q (pos 0)
    then pos 0 -ℤ pos n
    else pos n

-- The loop that takes the discount, in millionths, off the lines.
unfoldable pub deduct_lines : ℤ → List Line → List Line
unfolding divide
deduct_lines rem [] = []
deduct_lines rem (l ∷ ls) =
    let line_tot = l.unit_price *ℤ l.quantity in
    let deduction = min_ℤ line_tot rem in
    let left = rem -ℤ deduction in
    let rest = deduct_lines left ls in
    let unchanged = deduct_lines rem ls in
    if ltb_ℤ (pos 0) line_tot && ltb_ℤ (pos 0) rem
    then (with_price l (divide (line_tot -ℤ deduction) l.quantity)
        ∷ (if leb_ℤ left (pos 0) then ls else rest))
    else l ∷ unchanged

unfoldable pub shop_net_lines : ℤ → ℤ → List Line → List Line
unfolding deduct_lines reconcile
shop_net_lines target discount lines =
    reconcile target
      (if ltb_ℤ (pos 0) discount then deduct_lines (millionths discount) lines else lines)

module _ (py : Python) (accounts : Accounts) where
  unfoldable pub item_line : Fields → Line
  item_line item = record {
    account_id = accounts.ushanr_revenue_account_id;
    name = or_else (get item "product_name") (or_else (get item "name") (str "Product"));
    quantity = decimal_or py (or_else (get item "quantity") (str "1")) one;
    unit_price = d py (or_else (get item "unit_price") (get item "price"));
    discount = none;
    product_id = some (text_or_empty py (get item "product_id"));
  }

  unfoldable pub item_lines : List Fields → List Line
  unfolding item_line
  item_lines [] = []
  item_lines (item ∷ items) = item_line item ∷ item_lines items

  -- the lines of the items, or one line for the order
  unfoldable pub order_lines : Fields → Option (List Line)
  unfolding item_lines dicts
  order_lines body =
      if truthy (get body "items")
      then (do items ← dicts (get body "items"); some (item_lines items))
      else some (
          unit_line accounts.ushanr_revenue_account_id (str "Shop Order")
            (d py (get body "total_amount"))
          ∷ [])

  unfoldable pub build_shop_order_invoice_lines : Fields → Option (List Line)
  unfolding order_lines shop_net_lines
  build_shop_order_invoice_lines body = do
    lines ← order_lines body
    some (shop_net_lines (d py (get body "total_amount")) (d py (get body "discount")) lines)
