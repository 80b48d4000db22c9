-- ===== src/Invoicing/Lines.antt =====
-- The lines of an invoice and the two passes over them that app/invoicing/invoice_helper.py shares
-- between bookings and shop orders. An amount is a whole number of thousandths, as `_d` leaves it; a
-- line's text of an amount is read back as the same amount. A product of two amounts is in
-- millionths. Decimal's limit of 28 digits and its NaN are left out.
use ushnotice.Common.{
  ◌+◌, String, ◌==◌, ◌&&◌, not, Option, none, some, List, [], ◌∷◌, leb, if◌then◌else◌,
}
use ushnotice.Common.Int.{
  ℤ, pos, negsuc, ◌+ℤ◌, ◌-ℤ◌, ◌*ℤ◌, ltb_ℤ, leb_ℤ, is_zero_ℤ, abs, round_half_even,
}
use ushnotice.Json.{Json, null, str, obj, end, get, truthy, or_else}

-- the dict of a line; `discount` is its percentage, with none where the line has no such key
pub record Line : Type 0 where
  pub account_id : String
  pub name : Json
  pub quantity : ℤ
  pub unit_price : ℤ
  pub discount : Option String
  pub product_id : Option String

-- Python outside the repository: `Decimal(str(v)).quantize(Decimal("0.001"))`, none where it raises
-- InvalidOperation, and `str`.
pub record Python : Type 0 where
  pub decimal : Json → Option ℤ
  pub str_of : Json → String

-- The ids in the settings.
pub record Accounts : Type 0 where
  pub ushanr_company_id : String
  pub ushanr_ar_journal_id : String
  pub ushanr_revenue_account_id : String
  pub ushanr_addon_account_id : String

-- one unit of a quantity
abbrev pub one : ℤ
one = pos 1000

amount_or : Option ℤ → ℤ → ℤ
amount_or none default = default
amount_or (some v) default = v

-- `_d`
unfoldable pub decimal_or : Python → Json → ℤ → ℤ
unfolding amount_or
decimal_or py null default = default
decimal_or py (str t) default = if t == "" then default else amount_or (py.decimal (str t)) default
decimal_or py v default = amount_or (py.decimal v) default

unfoldable pub d : Python → Json → ℤ
d py v = decimal_or py v (pos 0)

-- `v.get(key)`: none stands for the AttributeError of a value that is no dict
unfoldable pub attr_get : Json → String → Option Json
attr_get (obj fields) key = some (get fields key)
attr_get _ key = none

-- `a or v.get(key)`
unfoldable pub or_get : Json → Json → String → Option Json
unfolding attr_get
or_get a v key = if truthy a then some a else attr_get v key

-- `v or {}`
abbrev pub or_dict : Json → Json
or_dict v = or_else v (obj end)

-- `str(v or "")`
abbrev pub text_or_empty : Python → Json → String
text_or_empty py v = if truthy v then py.str_of v else ""

-- The sum of unit price by quantity over the lines, in millionths.
unfoldable pub current_sum : List Line → ℤ
current_sum [] = pos 0
current_sum (l ∷ ls) = l.unit_price *ℤ l.quantity +ℤ current_sum ls

-- `.quantize(Decimal("0.001"))` of an amount in millionths
unfoldable pub quantize : ℤ → ℤ
quantize (pos n) = pos (round_half_even n 1000)
quantize (negsuc n) = pos 0 -ℤ pos (round_half_even (n + 1) 1000)

abbrev pub millionths : ℤ → ℤ
millionths a = a *ℤ pos 1000

abbrev pub with_price : Line → ℤ → Line
with_price l p = record {
  account_id = l.account_id;
  name = l.name;
  quantity = l.quantity;
  unit_price = p;
  discount = l.discount;
  product_id = l.product_id;
}

-- The loop of the reconciliation: the first line that stays at zero or more takes the difference.
unfoldable pub absorb : ℤ → List Line → List Line
absorb diff [] = []
absorb diff (l ∷ ls) =
    let rest = absorb diff ls in
    let p = millionths l.unit_price +ℤ diff in
    if leb_ℤ (pos 0) p then with_price l (quantize p) ∷ ls else l ∷ rest

-- A difference of at most 0.010 to a positive target is given to one line.
unfoldable pub reconcile : ℤ → List Line → List Line
unfolding absorb current_sum
reconcile target lines =
    let diff = millionths target -ℤ current_sum lines in
    if ltb_ℤ (pos 0) target && (leb (abs diff) 10000 && not (is_zero_ℤ diff))
    then absorb diff lines
    else lines
