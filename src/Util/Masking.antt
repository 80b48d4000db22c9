-- ===== src/Util/Masking.antt =====
-- app/common/masking.py. `is_decimal` is the test `\d` of Python's regular expressions.
use Prim.Native.Char.{Char, code}
use ushnotice.Common.{
  ◌-◌, String, ◌==◌, ◌<>◌, ◌||◌, not, Bool, contains, keep_chars, take_chars, drop_chars, size,
  nat_eq, leb, starts_with, if◌then◌else◌, List, [], ◌∷◌, split_on,
}

module _ (is_decimal : Char → Bool) where
  -- the digits, and the plus signs
  unfoldable pub phone_digits : String → String
  unfolding keep_chars
  phone_digits phone = keep_chars (λ c. is_decimal c || nat_eq (code c) b'+') phone

  -- `digits[-4:]` of a text of at least four characters
  abbrev pub last_four : String → String
  last_four t = drop_chars (size t - 4) t

  unfoldable pub mask_phone : String → String
  unfolding phone_digits take_chars drop_chars
  mask_phone phone =
      let digits = phone_digits phone in
      let prefix = take_chars (if starts_with digits "+" then 5 else 4) digits in
      if phone == ""
      then phone
      else if leb (size digits) 8
      then digits
      else prefix <> "****" <> last_four digits

-- the part before the first "@", and after it
abbrev local_part : List String → String
local_part [] = ""
local_part (part ∷ parts) = part

join_at : List String → String
join_at [] = ""
join_at (part ∷ []) = part
join_at (part ∷ other ∷ parts) = part <> "@" <> join_at (other ∷ parts)

abbrev domain_part : List String → String
domain_part [] = ""
domain_part (part ∷ parts) = join_at parts

unfoldable pub mask_email : String → String
unfolding join_at split_on take_chars contains
mask_email email =
    let parts = split_on b'@' email in
    let name = local_part parts in
    let masked = if leb (size name) 2 then name <> "***" else take_chars 2 name <> "***" in
    if email == "" || not (contains email "@") then email else masked <> "@" <> domain_part parts
