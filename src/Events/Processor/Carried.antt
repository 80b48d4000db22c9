-- ===== src/Events/Processor/Carried.antt =====
-- The bodies of messages that carry a valid event with an id of its own.
use ushnotice.Common.{◌≡◌, refl, String, true, false}
use ushnotice.Json.{Fields, obj, has_key}
use ushnotice.Store.{World}
use ushnotice.Events.Envelope.{EventEnvelope}
use ushnotice.Events.Registry.{Registry}
use ushnotice.Events.Processor.{
  Platform, SqsIds, valid, loaded, enrich, model_validate, enrich_json, unwrap, after_validation,
  after_loading, process_valid, process_raw_message,
}

-- The body is an object with an event_id and outside an SNS notification, and with its defaults it
-- validates as the envelope.
pub record Carries (E : Type 0) (p : Platform) (raw : String) (env : EventEnvelope) : Type 0 where
  pub fields : Fields
  pub parsed : p.loads raw ≡ loaded (obj fields)
  pub plain : has_key fields "Message" ≡ false
  pub own_id : has_key fields "event_id" ≡ true
  pub validated : (w : World E) → model_validate p (obj (enrich p fields w).0) ≡ valid env

module _ {E : Type 0} (p : Platform) where
  enrich_named : (d : Fields) (w : World E) → has_key d "event_id" ≡ true → (enrich p d w).1 ≡ w
  unfolding enrich
  enrich_named d w h = rw (h, enrich) refl

  -- What comes of such a body is what comes of its event.
  pub process_raw_message-Carries :
      (registry : Registry E) (raw : String) (env : EventEnvelope) (ids : SqsIds) (w : World E)
      → Carries E p raw env
      → process_raw_message p registry raw ids w ≡ process_valid registry env ids w
  unfolding process_raw_message after_loading after_validation enrich_json unwrap
  process_raw_message-Carries registry raw env ids w c =
      rw (c.parsed, process_raw_message)
        (rw (c.plain, after_loading)
          (rw (c.validated w) (rw (enrich_named c.fields w c.own_id) refl)))
