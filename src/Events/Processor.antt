-- ===== src/Events/Processor.antt =====
-- `MessageProcessor` of app/events/consumer/message_processor.py.
pub mod Laws
pub mod Redelivery
pub mod Repeats
pub mod Carried
use ushnotice.Common.{
  ℕ, String, ◌<>◌, ◌==◌, ◌||◌, ◌&&◌, not, Bool, Option, none, some, List, [], ◌∷◌, any,
  if◌then◌else◌,
}
use ushnotice.Common.Int.{ℤ, pos}
use ushnotice.Json.{
  Json, null, bool, num, str, arr, obj, Fields, end, field, get, has_key, put, truthy, as_dict,
}
use ushnotice.Domain.Models.{Event}
use ushnotice.Store.{World, uuid4, commit, rollback}
use ushnotice.Store.Events
use ushnotice.Events.Envelope.{EventEnvelope, prepare}
use ushnotice.Events.Registry.{Registry}
use ushnotice.Events.Router.{Routed, routed, unknown_type, failed, route}

pub data Loaded : Type 0 where
  loaded : Json → Loaded
  load_error : String → Loaded

pub data Validated : Type 0 where
  valid : EventEnvelope → Validated
  invalid : String → Validated

-- What the processor takes from Python's library and from pydantic.
pub record Platform : Type 0 where
  -- `json.loads`
  pub loads : String → Loaded
  -- `BaseModel.model_validate` with the fields' types, bounds and validators
  pub validate : Json → Validated
  pub str_of : Json → String
  -- `int(v)` and `int(float(str(v)))`, none where they raise
  pub int_of : Json → Option ℤ
  pub int_of_float : Json → Option ℤ
  pub int_json : ℤ → Json
  -- `datetime.now(timezone.utc).isoformat()`
  pub now : String
  -- the first `n` characters
  pub prefix : ℕ → String → String

-- How `process_raw_message` ends: the event, an `EventValidationError`, the `RuntimeError` of the
-- router, or another exception.
pub data Processed : Type 0 where
  stored : Event → Processed
  validation_error : String → Processed
  routing_error : String → Processed
  other_error : Processed

-- the ids of the message in the queue
pub record SqsIds : Type 0 where
  pub message_id : Option String
  pub receipt_handle : Option String

abbrev root_keys : List String
root_keys =
    "event_id" ∷ "event_type" ∷ "version" ∷ "occurred_at" ∷ "source" ∷ "correlation_id"
    ∷ "causation_id" ∷ []

-- `{k: v for k, v in parsed_json.items() if k not in (…)}`
unfoldable pub without_root_keys : Fields → Fields
without_root_keys end = end
without_root_keys (field k v rest) =
    let kept = without_root_keys rest in
    if any (λ r. r == k) root_keys then kept else field k v kept

-- `if key not in d: d[key] = v`
unfoldable pub set_default : String → Json → Fields → Fields
set_default key v d = if has_key d key then d else put d key v

abbrev is_dict : Json → Bool
is_dict (obj _) = Bool.true
is_dict _ = Bool.false

unfoldable pub default_data : Fields → Fields
unfolding without_root_keys
default_data d =
    if has_key d "data" && is_dict (get d "data")
    then d
    else put d "data" (obj (without_root_keys d))

-- The value of a nullable text column; the driver refuses what is no text.
abbrev text_column : Json → Option (Option String)
text_column null = some none
text_column (str t) = some (some t)
text_column _ = none

module _ (p : Platform) where
  -- The message inside an SNS notification, where there is one that parses.
  unwrap : Json → Json
  unwrap (obj d) =
      if has_key d "Message" && has_key d "Type"
      then elim (get d "Message") [
        | str inner ↦ elim (p.loads inner) [ loaded v ↦ v | load_error _ ↦ obj d ]
        | _ ↦ obj d
      ]
      else obj d
  unwrap v = v

  -- the root's defaults; a missing event id is drawn
  unfoldable pub enrich : {E : Type 0} → Fields → World E → Fields × World E
  unfolding set_default default_data
  enrich d w =
      let (d₁, w₁) : Fields × World _ =
        if has_key d "event_id"
        then (d, w)
        else (let (id, w') = uuid4 w in (put d "event_id" (str id), w')) in
      (
        default_data (
            set_default "source" (str "aws_eventbridge_scheduler") (
              set_default "version" (p.int_json (pos 1))
                (set_default "occurred_at" (str p.now) d₁))),
        w₁,
      )

  -- `EventEnvelope.model_validate`
  unfoldable pub model_validate : Json → Validated
  model_validate v = elim (as_dict v) [
    | some d ↦ p.validate (obj (prepare p.str_of p.int_of_float p.int_json d))
    | none ↦ p.validate v
  ]

  -- the columns of the event of a body that is no JSON
  unfoldable pub malformed_event : String → SqsIds → Events.NewEvent
  malformed_event raw ids = record {
    event_id = "malformed-json";
    event_type = "unknown.invalid";
    version = pos 1;
    source = "unknown";
    correlation_id = none;
    causation_id = none;
    payload = some (field "raw_body" (str (p.prefix 500 raw)) end);
    sqs_message_id = ids.message_id;
    sqs_receipt_handle = ids.receipt_handle;
  }

  abbrev text_or : Json → String → String
  text_or v d = if truthy v then p.str_of v else d

  -- the columns of the event of an envelope that is not valid
  unfoldable pub invalid_event :
      Fields → ℤ → Option String → Option String → SqsIds → Events.NewEvent
  invalid_event d version correlation_id causation_id ids = record {
    event_id = text_or (get d "event_id") "validation-error";
    event_type = text_or (get d "event_type") "unknown";
    version = version;
    source = text_or (get d "source") "unknown";
    correlation_id = correlation_id;
    causation_id = causation_id;
    payload = as_dict (get d "data");
    sqs_message_id = ids.message_id;
    sqs_receipt_handle = ids.receipt_handle;
  }

  abbrev version_of : Json → Option ℤ
  version_of v = if truthy v then p.int_of v else some (pos 1)

-- the columns of a valid envelope's event
unfoldable pub event_of : EventEnvelope → SqsIds → Events.NewEvent
event_of env ids = record {
  event_id = env.event_id;
  event_type = env.event_type;
  version = env.version;
  source = env.source;
  correlation_id = env.correlation_id;
  causation_id = env.causation_id;
  payload = some env.body;
  sqs_message_id = ids.message_id;
  sqs_receipt_handle = ids.receipt_handle;
}

module _ {E : Type 0} where
  -- An event is stored as invalid and committed, and the error raised.
  unfoldable pub reject : Events.NewEvent → String → String → World E → Processed × World E
  reject new error message w =
      let (event, w') = Events.create new w in
      (validation_error message, commit (Events.mark_invalid event error w'))

  -- After the router: an unknown type is marked as processed, a failure is rolled back and raised.
  unfoldable pub after_route : Event → Routed × World E → Processed × World E
  after_route event (routed, w) = (stored event, commit w)
  after_route event (unknown_type t, w) = (stored event, commit (Events.mark_processed event w))
  after_route event (failed message, w) = (routing_error message, rollback w)

  -- steps 3 and 4: the event is stored and committed, and routed
  unfoldable pub process_valid : Registry E → EventEnvelope → SqsIds → World E → Processed × World E
  unfolding event_of after_route
  process_valid registry env ids w =
      let (event, w') = Events.create (event_of env ids) w in
      after_route event (route registry env event (commit w'))

  module _ (p : Platform) where
    -- The answer to a failed validation; it raises something else where the body is no object, its
    -- version no number, or one of the two ids neither a text nor missing.
    unfoldable pub process_invalid : Json → String → SqsIds → World E → Processed × World E
    unfolding invalid_event reject
    process_invalid (obj d) error ids w = elim (version_of p (get d "version")) [
      | none ↦ (other_error, w)
      | some version ↦ elim (text_column (get d "correlation_id")) [
        | none ↦ (other_error, w)
        | some correlation_id ↦ elim (text_column (get d "causation_id")) [
          | none ↦ (other_error, w)
          | some causation_id ↦
              reject (invalid_event p d version correlation_id causation_id ids) error
                ("Schema validation failed: " <> error) w
        ]
      ]
    ]
    process_invalid _ error ids w = (other_error, w)

    -- step 3 for the outcome of the validation
    unfoldable pub after_validation :
        Registry E → Json → SqsIds → World E → Validated → Processed × World E
    unfolding process_valid process_invalid
    after_validation registry v ids w (valid env) = process_valid registry env ids w
    after_validation registry v ids w (invalid error) = process_invalid v error ids w

    -- the root's defaults, for a body that is an object
    unfoldable pub enrich_json : Json → World E → Json × World E
    unfolding enrich
    enrich_json (obj d) w = let (d', w') = enrich p d w in (obj d', w')
    enrich_json v w = (v, w)

    -- steps 1 and 2 for the outcome of `json.loads`
    unfoldable pub after_loading :
        Registry E → String → SqsIds → World E → Loaded → Processed × World E
    unfolding malformed_event reject unwrap enrich_json model_validate after_validation
    after_loading registry raw ids w (load_error cause) =
        reject (malformed_event p raw ids) ("Malformed JSON: " <> cause)
          ("Invalid JSON payload: " <> cause) w
    after_loading registry raw ids w (loaded v) =
        let (v', w') = enrich_json (unwrap p v) w in
        after_validation registry v' ids w' (model_validate p v')

    unfoldable pub process_raw_message :
        Registry E → String → SqsIds → World E → Processed × World E
    unfolding after_loading
    process_raw_message registry raw ids w = after_loading registry raw ids w (p.loads raw)
