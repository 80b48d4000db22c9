-- ===== src/Events/Registry/Laws.antt =====
-- The registry finds what was registered.
use ushnotice.Common.{
  ◌≡◌, refl, ap, String, ◌==◌, eq_iff, Option, none, some, List, [], ◌∷◌, ◌++◌, arith, lower,
  lower_idem, if◌then◌else◌,
}
use ushnotice.Events.Handler.{EventHandler}
use ushnotice.Events.Registry.{Registry, lookup, add, register, known, resolve}

module _ {E : Type 0} where
  abbrev or_empty : Option (List (EventHandler E)) → List (EventHandler E)
  or_empty none = []
  or_empty (some hs) = hs

  lookup-add :
      (key j : String) (h : EventHandler E) (r : Registry E)
      → lookup j (add key h r)
        ≡ (if key == j then some (or_empty (lookup key r) ++ (h ∷ [])) else lookup j r)
  unfolding lookup add
  lookup-add key j h [] = ground (arith, eq_iff key j)
  lookup-add key j h ((k, hs) ∷ r) =
      ground (arith, lookup-add key j h r, eq_iff k key, eq_iff k j, eq_iff key j)

  known-append :
      (hs : List (EventHandler E)) (h : EventHandler E)
      → known (some (hs ++ (h ∷ []))) ≡ some (hs ++ (h ∷ []))
  unfolding known
  known-append [] h = refl
  known-append (x ∷ hs) h = refl

  -- After the registration of a handler, a type spelled like its own up to case resolves to what
  -- was registered for it before followed by the handler, and any other type resolves as before.
  pub resolve-register :
      (t : String) (h : EventHandler E) (r : Registry E)
      → resolve t (register h r) ≡ (
          if lower h.event_type == lower t
          then some (or_empty (lookup (lower t) r) ++ (h ∷ []))
          else resolve t r)
  unfolding resolve register
  resolve-register t h r = ground (
    arith,
    lookup-add (lower h.event_type) (lower t) h r,
    eq_iff (lower h.event_type) (lower t),
    known-append (or_empty (lookup (lower t) r)) h,
  )

  -- Resolution does not depend on the case of the type's letters.
  pub resolve-lower : (t : String) (r : Registry E) → resolve (lower t) r ≡ resolve t r
  unfolding resolve
  resolve-lower t r = ap (λ k. known (lookup k r)) (lower_idem t)
