-- ===== src/Tests/Redis.antt =====
-- A Redis and a provider that work.
use ushnotice.Common
use ushnotice.Common.{
  ℕ, suc, ◌+◌, ◌≡◌, ◌≢◌, ◌↔◌, refl, String, ◌==◌, eq_iff, Bool, true, false, ◌&&◌, Bool-cases, inl,
  inr, ◌||◌, arith, some, none, List, [], ◌∷◌, if◌then◌else◌, any, length,
}
use ushnotice.Json.{null}
use ushnotice.Domain.Enums.{NotificationChannel}
use ushnotice.Domain.Values.{delivery_ok, delivery_fail}
use ushnotice.Notify.Renderer.{JinjaResult}
use ushnotice.Notify.Settings.{Settings}
use ushnotice.Notify.Services.{Services, KeepsKeys, delivered}

-- The world outside is the list of the keys in Redis.
abbrev pub Keys : Type 0
Keys = List String

unfoldable pub is_held : String → Keys → Bool
is_held k keys = any (λ j. j == k) keys

unfoldable pub remove : String → Keys → Keys
remove k [] = []
remove k (j ∷ keys) = let rest = remove k keys in if k == j then rest else j ∷ rest

unfoldable pub claim_key : String → Keys → Common.Option Bool × Keys
unfolding is_held
claim_key k keys = if is_held k keys then (some false, keys) else (some true, k ∷ keys)

is_held-remove :
    (k j : String) (keys : Keys)
    → is_held j (remove k keys) ≡ (if k == j then false else is_held j keys)
unfolding is_held remove any
is_held-remove k j [] = ground arith
is_held-remove k j (x ∷ keys) =
    ground (arith, is_held-remove k j keys, eq_iff k x, eq_iff k j, eq_iff x j)

-- A Redis of its own keys, a provider of SMS that takes every text but "busy", and no templates.
unfoldable pub services : Services Keys
unfolding claim_key remove
services = record {
  set_nx = claim_key;
  delete = remove;
  deliver = λ channel to subject body keys.
      if body == "busy"
      then (delivered (delivery_fail "E_BUSY" "try later" true null), keys)
      else (delivered (delivery_ok "wamid.1" null), keys);
  jinja = λ name html context. JinjaResult.not_found;
  strip = λ t. t;
  repr = λ t. t;
  str_of = λ v. "text";
  str_of_int = λ n. "1";
}

set_nx_new_lem :
    (k : String) (keys : Keys) → is_held k keys ≡ false → (claim_key k keys).0 ≡ some true
unfolding claim_key
set_nx_new_lem k keys h = rw h

set_nx_held_lem :
    (k : String) (keys : Keys) → is_held k keys ≡ true → claim_key k keys ≡ (some false, keys)
unfolding claim_key
set_nx_held_lem k keys h = rw h

is_held-claim_key :
    (k j : String) (keys : Keys)
    → is_held j (claim_key k keys).1 ≡ (if k == j then true else is_held j keys)
unfolding claim_key is_held any
is_held-claim_key k j keys = ground (arith, eq_iff k j)

is_held-deliver :
    (c : NotificationChannel) (to subject body k : String) (keys : Keys)
    → is_held k (services.deliver c to subject body keys).1 ≡ is_held k keys
unfolding services
is_held-deliver c to subject body k keys = ground arith

unfoldable pub services-KeepsKeys : KeepsKeys services
unfolding services set_nx_new_lem set_nx_held_lem is_held-claim_key is_held-remove is_held-deliver
services-KeepsKeys = record {
  held = is_held;
  set_nx_new = set_nx_new_lem;
  set_nx_held = set_nx_held_lem;
  held-set_nx = is_held-claim_key;
  held-delete = is_held-remove;
  held-deliver = is_held-deliver;
}

abbrev pub settings : Settings
settings = record {
  sms_provider = "kwtsms";
  whatsapp_provider = "meta";
  email_provider = "smtp";
  email_enabled = true;
  skip_sending_emial = false;
  skip_sending_email = false;
  notification_max_retries = 2;
}
