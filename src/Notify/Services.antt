-- ===== src/Notify/Services.antt =====
-- What the notification service calls outside the repository: Redis, the providers' networks,
-- Jinja2 and Python's `str`. A call that raises says so in its result.
use ushnotice.Common.{ℕ, String, ◌≡◌, ◌==◌, Bool, true, false, Option, some, if◌then◌else◌}
use ushnotice.Json.{Json, Fields}
use ushnotice.Domain.Enums.{NotificationChannel}
use ushnotice.Domain.Values.{DeliveryResult}
use ushnotice.Notify.Renderer.{JinjaResult}

-- What a provider does: it gives a result or raises.
pub data Delivery : Type 0 where
  delivered : DeliveryResult → Delivery
  raised : String → Delivery

pub record Services (E : Type 0) : Type 0 where
  -- `get_redis().set(key, "1", nx=True, ex=…)`: none where it raises
  pub set_nx : String → E → Option Bool × E
  -- `get_redis().delete(key)`, with an exception ignored
  pub delete : String → E → E
  -- `send_sms`, `send_message` or `send_email` of the channel's provider: address, subject, body
  pub deliver : NotificationChannel → String → String → String → E → Delivery × E
  pub jinja : String → Bool → Fields → JinjaResult
  pub strip : String → String
  -- `repr` of a text
  pub repr : String → String
  pub str_of : Json → String
  pub str_of_int : ℕ → String

-- A Redis that can be reached and expires no key in the time considered: `held` are its keys. A
-- provider does not touch them.
pub record KeepsKeys {E : Type 0} (s : Services E) : Type 0 where
  pub held : String → E → Bool
  pub set_nx_new : (k : String) (e : E) → held k e ≡ false → (s.set_nx k e).0 ≡ some true
  pub set_nx_held : (k : String) (e : E) → held k e ≡ true → s.set_nx k e ≡ (some false, e)
  pub held-set_nx :
      (k j : String) (e : E) → held j (s.set_nx k e).1 ≡ (if k == j then true else held j e)
  pub held-delete :
      (k j : String) (e : E) → held j (s.delete k e) ≡ (if k == j then false else held j e)
  pub held-deliver :
      (c : NotificationChannel) (to subject body k : String) (e : E)
      → held k (s.deliver c to subject body e).1 ≡ held k e
