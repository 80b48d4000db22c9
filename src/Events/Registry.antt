-- ===== src/Events/Registry.antt =====
-- `HandlerRegistry` of app/events/registry/handler_registry.py: a dict from event types, in lower
-- case, to the handlers registered for them, in the order of registration.
pub mod Laws
pub mod Default
use ushnotice.Common.{
  String, ◌==◌, Bool, Option, none, some, List, [], ◌∷◌, ◌++◌, lower, replace_char, if◌then◌else◌,
}
use ushnotice.Events.Handler.{EventHandler}

abbrev pub Registry : Type 0 → Type 0
Registry E = List (String × List (EventHandler E))

-- the type under which the dots are underscores
abbrev pub alias_type : String → String
alias_type event_type = replace_char b'.' "_" event_type

module _ {E : Type 0} where
  unfoldable pub lookup : String → Registry E → Option (List (EventHandler E))
  lookup key [] = none
  lookup key ((k, hs) ∷ r) = if k == key then some hs else lookup key r

  -- `self._handlers[event_type].append(handler)`, after an empty list for a new key
  add : String → EventHandler E → Registry E → Registry E
  add key h [] = (key, h ∷ []) ∷ []
  add key h ((k, hs) ∷ r) = if k == key then (k, hs ++ (h ∷ [])) ∷ r else (k, hs) ∷ add key h r

  unfoldable pub register : EventHandler E → Registry E → Registry E
  unfolding add
  register h = add (lower h.event_type) h

  -- `none` is `UnknownEventTypeError`
  pub known : Option (List (EventHandler E)) → Option (List (EventHandler E))
  known none = none
  known (some []) = none
  known (some (h ∷ hs)) = some (h ∷ hs)

  unfoldable pub resolve : String → Registry E → Option (List (EventHandler E))
  unfolding lookup known
  resolve event_type r = known (lookup (lower event_type) r)

  abbrev is_some : Option (List (EventHandler E)) → Bool
  is_some none = Bool.false
  is_some (some _) = Bool.true

  unfoldable pub has_handler : String → Registry E → Bool
  unfolding lookup
  has_handler event_type r = is_some (lookup (lower event_type) r)

  -- the loop that registers each handler and its underscore alias
  unfoldable pub register_with_alias : List (EventHandler E) → Registry E → Registry E
  unfolding register
  register_with_alias [] r = r
  register_with_alias (h ∷ hs) r =
      let r' = register h r in
      let alias = alias_type h.event_type in
      register_with_alias hs
        (if alias == h.event_type then r' else register (record h { event_type = alias }) r')

  -- the loops `if not registry.has_handler(key)` over further keys of one handler
  unfoldable pub register_missing : EventHandler E → List String → Registry E → Registry E
  unfolding register has_handler
  register_missing h [] r = r
  register_missing h (key ∷ keys) r =
      register_missing h keys
        (if has_handler key r then r else register (record h { event_type = key }) r)
