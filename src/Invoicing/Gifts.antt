-- ===== src/Invoicing/Gifts.antt =====
-- `build_gift_purchase_invoice_lines` and `build_voucher_invoice_lines` of
-- app/invoicing/invoice_helper.py.
use ushnotice.Common.{◌<>◌, ◌==◌, Option, some, List, [], ◌∷◌, ◌>>=◌, if◌then◌else◌}
use ushnotice.Json.{str, Fields, get, truthy, or_else}
use ushnotice.Invoicing.Lines.{Line, Python, Accounts, d, or_get, or_dict, text_or_empty}
use ushnotice.Invoicing.Booking.{unit_line, dicts}

module _ (py : Python) (accounts : Accounts) where
  unfoldable pub gift_line : Fields → Line
  gift_line item =
      let name =
        or_else (get item "service_name") (or_else (get item "name") (str "Gift Voucher")) in
      unit_line accounts.ushanr_revenue_account_id (str ("Gift Voucher — " <> py.str_of name))
        (d py (or_else (get item "price") (get item "total_amount")))

  unfoldable pub gift_lines : List Fields → List Line
  unfolding gift_line
  gift_lines [] = []
  gift_lines (item ∷ items) = gift_line item ∷ gift_lines items

  unfoldable pub purchase_line : Fields → Line
  purchase_line body =
      let ref = text_or_empty py (or_else (get body "public_token") (get body "id")) in
      unit_line accounts.ushanr_revenue_account_id
        (str ("Gift Voucher Purchase" <> (if ref == "" then "" else " — " <> ref)))
        (d py (get body "total_amount"))

  unfoldable pub build_gift_purchase_invoice_lines : Fields → Option (List Line)
  unfolding gift_lines purchase_line dicts
  build_gift_purchase_invoice_lines body =
      if truthy (get body "items")
      then (do items ← dicts (get body "items"); some (gift_lines items))
      else some (purchase_line body ∷ [])

  unfoldable pub build_voucher_invoice_lines : Fields → Option (List Line)
  build_voucher_invoice_lines body = do
    n ← or_get (get body "service_name") (or_dict (get body "service_data")) "name"
    let number = text_or_empty py (get body "voucher_number")
    let suffix = if number == "" then "" else " (" <> number <> ")"
    let name = "Gift Voucher — " <> py.str_of (or_else n (str "Gift Voucher")) <> suffix
    some (
        unit_line accounts.ushanr_revenue_account_id (str name) (d py (get body "total_amount"))
        ∷ [])
