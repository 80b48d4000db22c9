-- ===== src/Events/Envelope.antt =====
-- `EventEnvelope` of app/events/schemas/envelope.py. A UUID is kept as its text. What pydantic does
-- with the prepared fields (`super().model_validate`) is a parameter of the processor.
pub mod Merge
use ushnotice.Common.{
  String, ◌<>◌, ◌==◌, ◌||◌, ◌&&◌, not, Option, none, some, List, [], ◌∷◌, any, lower, contains,
  replace_char, if◌then◌else◌,
}
use ushnotice.Common.Int.{ℤ, pos}
use ushnotice.Json.{Json, str, obj, Fields, end, field, get, has_key, put, truthy, as_dict}

pub record EventEnvelope : Type 0 where
  pub event_id : String
  pub event_type : String
  pub version : ℤ
  pub source : String
  pub correlation_id : Option String
  pub causation_id : Option String
  pub body : Fields

-- `str(v or "")`
abbrev text_of : (Json → String) → Json → String
text_of str_of v = if truthy v then str_of v else ""

-- the service that an event's names point to
unfoldable pub inferred_source : String → String
inferred_source names =
    if contains names "booking" || contains names "payment"
    then "ushbooknpay"
    else if contains names "user" || contains names "auth" || contains names "password"
    then "ushauth"
    else "ushspa"

abbrev pub envelope_keys : List String
envelope_keys =
    "event_id" ∷ "event_type" ∷ "event_name" ∷ "version" ∷ "schema_version" ∷ "occurred_at"
    ∷ "source" ∷ "correlation_id" ∷ "causation_id" ∷ "data" ∷ []

-- the root's other fields, after those that the data has
unfoldable pub merge_data : Fields → Fields → Fields
merge_data end raw_data = raw_data
merge_data (field k v rest) raw_data = merge_data rest (
    if not (any (λ e. e == k) envelope_keys) && not (has_key raw_data k)
    then put raw_data k v
    else raw_data)

abbrev dict_or_empty : Json → Fields
dict_or_empty v = elim (as_dict v) [ some fields ↦ fields | none ↦ end ]

-- `int_of_float` is `int(float(str(v)))`, none where it raises a ValueError or a TypeError; `int_json`
-- the number as a value. The OverflowError of an infinite number is left out: the processor has set
-- "version" before, and this field is then not read.
module _ (str_of : Json → String) (int_of_float : Json → Option ℤ) (int_json : ℤ → Json) where
  default_source : Fields → Fields
  default_source v =
      if truthy (get v "source")
      then v
      else put v "source" (
          str (
            inferred_source (
              lower (
                text_of str_of (get v "event_name")
                <> " "
                <> text_of str_of (get v "event_type")))))

  map_version : Fields → Fields
  map_version v =
      if not (has_key v "version") && has_key v "schema_version"
      then put v "version"
          (int_json (elim (int_of_float (get v "schema_version")) [ some n ↦ n | none ↦ pos 1 ]))
      else v

  default_event_type : Fields → Fields
  default_event_type v =
      if not (truthy (get v "event_type")) && truthy (get v "event_name")
      then put v "event_type" (str (replace_char b'.' "_" (lower (str_of (get v "event_name")))))
      else v

  -- `model_validate` up to pydantic's own
  unfoldable pub prepare : Fields → Fields
  unfolding default_source map_version default_event_type
  prepare obj₀ =
      let v = default_event_type (map_version (default_source obj₀)) in
      put v "data" (obj (merge_data v (dict_or_empty (get v "data"))))
