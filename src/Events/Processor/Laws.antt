-- ===== src/Events/Processor/Laws.antt =====
-- A message leaves nothing uncommitted in its session.
use ushnotice.Common.{◌≡◌, refl, String, arith}
use ushnotice.Json.{Json, obj}
use ushnotice.Domain.Models.{Event}
use ushnotice.Store.{World, commit, rollback, uuid4}
use ushnotice.Events.Envelope.{EventEnvelope}
use ushnotice.Events.Registry.{Registry}
use ushnotice.Events.Router.{Routed, routed, unknown_type, failed}
use ushnotice.Events.Processor.{
  Platform, Validated, Loaded, SqsIds, reject, after_route, process_valid, process_invalid,
  after_validation, enrich, enrich_json, after_loading, process_raw_message, valid, invalid, loaded,
  load_error,
}

module _ {E : Type 0} where
  abbrev pub IsClean : World E → Type 0
  IsClean w = w.db ≡ w.saved

  after_route-IsClean : (event : Event) (r : Routed × World E) → IsClean (after_route event r).1
  unfolding after_route commit rollback
  after_route-IsClean event (routed, w) = refl
  after_route-IsClean event (unknown_type t, w) = refl
  after_route-IsClean event (failed m, w) = refl

  process_invalid-IsClean :
      (p : Platform) (v : Json) (error : String) (ids : SqsIds) (w : World E)
      → IsClean w
      → IsClean (process_invalid p v error ids w).1
  unfolding process_invalid reject commit
  process_invalid-IsClean p (obj d) error ids w h = ground arith
  process_invalid-IsClean p _ error ids w h = h

  pub process_valid-IsClean :
      (registry : Registry E) (env : EventEnvelope) (ids : SqsIds) (w : World E)
      → IsClean (process_valid registry env ids w).1
  unfolding process_valid
  process_valid-IsClean registry env ids w = after_route-IsClean _ _

  after_validation-IsClean :
      (p : Platform) (registry : Registry E) (v : Json) (ids : SqsIds) (w : World E) (r : Validated)
      → IsClean w
      → IsClean (after_validation p registry v ids w r).1
  unfolding after_validation
  after_validation-IsClean p registry v ids w (valid env) h =
      process_valid-IsClean registry env ids w
  after_validation-IsClean p registry v ids w (invalid error) h =
      process_invalid-IsClean p v error ids w h

  enrich_json-IsClean :
      (p : Platform) (v : Json) (w : World E) → IsClean w → IsClean (enrich_json p v w).1
  unfolding enrich_json enrich uuid4
  enrich_json-IsClean p (obj d) w h = ground arith
  enrich_json-IsClean p _ w h = h

  after_loading-IsClean :
      (p : Platform) (registry : Registry E) (raw : String) (ids : SqsIds) (w : World E)
      (r : Loaded)
      → IsClean w
      → IsClean (after_loading p registry raw ids w r).1
  unfolding after_loading reject commit
  after_loading-IsClean p registry raw ids w (load_error cause) h = refl
  after_loading-IsClean p registry raw ids w (loaded v) h =
      after_validation-IsClean p registry _ ids _ _ (enrich_json-IsClean p _ w h)

  -- A session without uncommitted changes has none after process_raw_message either, however the
  -- processing ends.
  pub process_raw_message-IsClean :
      (p : Platform) (registry : Registry E) (raw : String) (ids : SqsIds) (w : World E)
      → IsClean w
      → IsClean (process_raw_message p registry raw ids w).1
  unfolding process_raw_message
  process_raw_message-IsClean p registry raw ids w h =
      after_loading-IsClean p registry raw ids w (p.loads raw) h
