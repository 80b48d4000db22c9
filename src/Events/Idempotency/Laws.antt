-- ===== src/Events/Idempotency/Laws.antt =====
-- What the guard keeps: a pair of an event and a handler that is blocked stays blocked until a
-- processing fails.
use ushnotice.Common.{
  ◌≡◌, refl, ap, String, eq_refl, Bool, true, false, Option, none, some, List, ◌∷◌, arith,
  Option-cases, Bool-cases, find_first, find_first-update_where, any_of_find_first, update_where,
  any-update_where, fun_ext, ◌&&◌, inl, inr, ◌==◌,
}
use ushnotice.Domain.Enums.{EventProcessingStatus}
use ushnotice.Domain.Models.{Event, EventProcessing}
use ushnotice.Store.{Db, World, on_db}
use ushnotice.Store.Events.{update_event}
use ushnotice.Store.Processings.{
  is_for, get, newest_pk, resolve_event_id, create, mark_processing, mark_completed,
}
use ushnotice.Events.Idempotency.{is_final, conflict, acquire, complete}

abbrev final_row : Option EventProcessing → Bool
final_row none = false
final_row (some p) = is_final p.status

-- The record of the pair, if any, has a status that `acquire` refuses.
abbrev pub blocked : Db → String → String → Bool
blocked db event_id handler_name = final_row (get db event_id handler_name)

-- A status that is final may be written over any row.
final_row-update_where :
    (p q : EventProcessing → Bool) (f : EventProcessing → EventProcessing)
    (xs : List EventProcessing)
    → ((x : EventProcessing) → q (f x) ≡ q x)
    → ((x : EventProcessing) → is_final (f x).status ≡ true)
    → final_row (find_first q xs) ≡ true
    → final_row (find_first q (update_where p f xs)) ≡ true
final_row-update_where p q f xs keeps final h =
    rw (find_first-update_where p q f xs keeps) (elim (Option-cases (find_first q xs)) [
      | inl e ↦ ground arith
      | inr (x, e) ↦ ground (arith, final x)
    ])

-- The row that `create` adds is found again under the id that it was made for.
is_for-resolve :
    (db : Db) (ev name : String) (p : EventProcessing)
    → p.event_id ≡ resolve_event_id db ev
    → p.handler_name ≡ name
    → is_for db.events ev name p ≡ true
unfolding is_for resolve_event_id
is_for-resolve db ev name p e n = elim (Option-cases (newest_pk db ev)) [
  | inl absent ↦ ground (arith, eq_refl ev, eq_refl name)
  | inr (found, first) ↦ ground (
    arith,
    eq_refl ev,
    eq_refl name,
    eq_refl found.id,
    any_of_find_first (λ x. x.event_id == ev) (λ x. x.id == found.id) db.events first,
  )
]

module _ {E : Type 0} where
  mark_processing-blocked :
      (w : World E) (ep : EventProcessing) (ev name : String)
      → blocked w.db ev name ≡ true
      → blocked (mark_processing ep w).db ev name ≡ true
  unfolding mark_processing get is_for is_final
  mark_processing-blocked w ep ev name h =
      final_row-update_where _ _ _ w.db.processings (λ x. refl) (λ x. refl) h

  pub complete-blocked :
      (w : World E) (ep : EventProcessing) (ev name : String)
      → blocked w.db ev name ≡ true
      → blocked (complete ep w).db ev name ≡ true
  unfolding complete mark_completed get is_for is_final
  complete-blocked w ep ev name h =
      final_row-update_where _ _ _ w.db.processings (λ x. refl) (λ x. refl) h

  create_start-blocked :
      (w : World E) (p : EventProcessing) (ev name : String)
      → is_for w.db.events ev name p ≡ true
      → blocked
          (mark_processing p (on_db (λ db. record db { processings = p ∷ db.processings }) w)).db
          ev
          name
        ≡ true
  unfolding mark_processing get is_for is_final find_first update_where
  create_start-blocked w p ev name h = ground (arith, eq_refl p.id)

  -- A blocked pair is refused, and nothing changes.
  pub acquire_conflict :
      (w : World E) (ev name : String)
      → blocked w.db ev name ≡ true
      → acquire ev name w ≡ (conflict, w)
  unfolding acquire
  acquire_conflict w ev name h = ground arith

  restart-blocked :
      (w : World E) (p : EventProcessing) (ev name : String)
      → get w.db ev name ≡ some p
      → blocked (mark_processing p w).db ev name ≡ true
  unfolding mark_processing get is_final
  restart-blocked w p ev name found = ground (
    arith,
    find_first-update_where (λ q. q.id == p.id) (is_for w.db.events ev name)
        (λ q. record q { status = EventProcessingStatus.processing }) w.db.processings
        (unfold is_for in λ x. refl),
    eq_refl p.id,
  )

  fresh-blocked :
      (w : World E) (p : EventProcessing) (ev name other : String)
      → blocked w.db ev other ≡ true
      → blocked
          (mark_processing p (on_db (λ db. record db { processings = p ∷ db.processings }) w)).db
          ev
          other
        ≡ true
  fresh-blocked w p ev name other h = elim (Bool-cases (is_for w.db.events ev other p)) [
    | inl same ↦ create_start-blocked w p ev other same
    | inr differ ↦
        mark_processing-blocked (on_db (λ db. record db { processings = p ∷ db.processings }) w) p
          ev other (unfold get find_first in rw differ h)
  ]

  -- Whatever acquire answers, the pair of the event and the handler is blocked afterwards.
  pub acquire-blocked :
      (w : World E) (ev name : String) → blocked (acquire ev name w).1.db ev name ≡ true
  unfolding acquire
  acquire-blocked w ev name = elim (Option-cases (get w.db ev name)) [
    | inl absent ↦
        rw (absent, acquire)
          (unfold create in
            create_start-blocked _ _ ev name (is_for-resolve w.db ev name _ refl refl))
    | inr (p, found) ↦ elim (Bool-cases (is_final p.status)) [
      | inl final ↦ rw (found, acquire) (rw final (rw found final))
      | inr again ↦ rw (found, acquire) (rw again (restart-blocked w p ev name found))
    ]
  ]

  -- acquire for one handler of an event leaves blocked for the event whichever handlers were.
  pub acquire-blocked_other :
      (w : World E) (ev name other : String)
      → blocked w.db ev other ≡ true
      → blocked (acquire ev name w).1.db ev other ≡ true
  unfolding acquire
  acquire-blocked_other w ev name other h = elim (Option-cases (get w.db ev name)) [
    | inl absent ↦ rw (absent, acquire) (unfold create in fresh-blocked _ _ ev name other h)
    | inr (p, found) ↦ elim (Bool-cases (is_final p.status)) [
      | inl final ↦ rw (found, acquire) (rw final h)
      | inr again ↦ rw (found, acquire) (rw again (mark_processing-blocked w p ev other h))
    ]
  ]

-- Only the events and the processings decide.
pub blocked_of_same :
    (c d : Db) (ev name : String)
    → c.events ≡ d.events
    → c.processings ≡ d.processings
    → blocked c ev name ≡ blocked d ev name
unfolding get
blocked_of_same c d ev name e p = cc

is_for-update_where :
    (p : Event → Bool) (f : Event → Event) (events : List Event) (ev name : String)
    (row : EventProcessing)
    → ((e : Event) → (f e).id ≡ e.id)
    → ((e : Event) → (f e).event_id ≡ e.event_id)
    → is_for (update_where p f events) ev name row ≡ is_for events ev name row
unfolding is_for
is_for-update_where p f events ev name row ids event_ids = rw (
    any-update_where p (λ e. e.event_id == ev && e.id == row.event_id) f events
      (λ e. rw (ids e, event_ids e)))

module _ {E : Type 0} where
  -- A statement over the events that keeps their keys blocks and frees nothing.
  pub update_event-blocked :
      (pk : String) (f : Event → Event) (w : World E) (ev name : String)
      → ((e : Event) → (f e).id ≡ e.id)
      → ((e : Event) → (f e).event_id ≡ e.event_id)
      → blocked (update_event pk f w).db ev name ≡ blocked w.db ev name
  unfolding update_event get
  update_event-blocked pk f w ev name ids event_ids =
      ap (λ test. final_row (find_first test w.db.processings))
        (fun_ext (λ row. is_for-update_where _ f w.db.events ev name row ids event_ids))
