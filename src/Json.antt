-- ===== src/Json.antt =====
-- The values that `json.loads` yields and Python's operations on them that the service uses.
-- A number is kept as whether it is zero and as its `str()`: the code looks at nothing else.
use ushnotice.Common.{Bool, true, false, not, String, Option, none, some, ◌==◌, if◌then◌else◌}

mutual
  pub data Json : Type 0 where
    null : Json
    bool : Bool → Json
    num : Bool → String → Json
    str : String → Json
    arr : Items → Json
    obj : Fields → Json

  pub data Items : Type 0 where
    nil : Items
    cons : Json → Items → Items

  pub data Fields : Type 0 where
    end : Fields
    field : String → Json → Fields → Fields

-- `d.get(key)`; a missing key reads as `None`, as a null value does.
unfoldable pub get : Fields → String → Json
get end key = null
get (field k v rest) key = if k == key then v else get rest key

-- `key in d`
unfoldable pub has_key : Fields → String → Bool
has_key end key = false
has_key (field k v rest) key = if k == key then true else has_key rest key

-- `d[key] = v`
unfoldable pub put : Fields → String → Json → Fields
put end key v = field key v end
put (field k w rest) key v = if k == key then field k v rest else field k w (put rest key v)

-- `bool(v)`
unfoldable pub truthy : Json → Bool
truthy null = false
truthy (bool b) = b
truthy (num is_zero _) = not is_zero
truthy (str s) = not (s == "")
truthy (arr nil) = false
truthy (arr (cons _ _)) = true
truthy (obj end) = false
truthy (obj (field _ _ _)) = true

-- `a or b`
unfoldable pub or_else : Json → Json → Json
unfolding truthy
or_else a b = if truthy a then a else b

-- `isinstance(v, dict)`
unfoldable pub as_dict : Json → Option Fields
as_dict (obj fields) = some fields
as_dict _ = none
