-- ===== src/Tests/Routing.antt =====
-- A delivery that ends well, one with a handler that fails, and their redeliveries.
use ushnotice.Common
use ushnotice.Common.{
  ◌≡◌, refl, String, ◌==◌, Bool, true, false, some, List, [], ◌∷◌, ◌++◌, lower, if◌then◌else◌,
}
use ushnotice.Store.{World}
use ushnotice.Store.Events
use ushnotice.Store.Processings
use ushnotice.Events.Registry.{lookup, register, resolve}
use ushnotice.Events.Registry.Laws.{resolve-register}
use ushnotice.Events.Idempotency.{acquire, complete}
use ushnotice.Events.Idempotency.Laws.{blocked, acquire-blocked, acquire-blocked_other}
use ushnotice.Events.Router.{Routed, routed, failed, run_handler, run_handlers, route}
use ushnotice.Events.Router.Failure.{OnlyMarks, route-OnlyMarks, route_failed-blocked}
use ushnotice.Events.Router.Delivery.{AllBlocked, route-AllBlocked, route_twice}
use ushnotice.Tests.Samples.{
  Log, logging, failing, logging-LeavesRouting, logging-LeavesCommits, failing-LeavesCommits, good,
  mixed, envelope, event, received,
}

good_known : resolve "voucher.ACTIVE" good ≡ some (logging ∷ [])
unfolding resolve lookup lower
good_known = refl

mixed_known : resolve "voucher.ACTIVE" mixed ≡ some (logging ∷ failing ∷ [])
unfolding resolve lookup lower
mixed_known = refl

-- the delivery of the event
abbrev delivery : Routed × World Log
delivery = route good envelope event received

abbrev failure : Routed × World Log
failure = route mixed envelope event received

abbrev failure_message : String
failure_message = "Handler execution failed for event 7f3e: [SendSMSHandler] no provider"

delivery_routed : (route good envelope event received).0 ≡ routed
unfolding route resolve lower run_handlers run_handler acquire Processings.get Common.find_first
    Events.mark_processing
delivery_routed = refl

failure_failed : (route mixed envelope event received).0 ≡ failed failure_message
unfolding route resolve lower run_handlers run_handler acquire Processings.get Common.find_first
    Events.mark_processing complete Processings.mark_completed Common.update_where
    Processings.mark_processing Processings.create Processings.is_for Processings.resolve_event_id
failure_failed = refl

-- the handler ran once
delivery_log : delivery.1.env ≡ "voucher" ∷ []
unfolding route resolve lower run_handlers run_handler acquire Processings.get Common.find_first
    Events.mark_processing Events.mark_processed_by_id complete Processings.mark_completed
    Processings.mark_processing Processings.create
delivery_log = refl

route_twice_example : route good envelope event (route good envelope event received).1 ≡ (
  routed,
  Events.mark_processed_by_id event.id
      (Events.mark_processing event (route good envelope event received).1),
)
route_twice_example =
    route_twice good envelope event received (logging ∷ []) good_known (logging-LeavesRouting, tt)
      delivery_routed

route-AllBlocked_example :
    AllBlocked (route good envelope event received).1.db "7f3e" (logging ∷ [])
route-AllBlocked_example =
    route-AllBlocked good envelope event received (logging ∷ []) good_known
      (logging-LeavesRouting, tt) delivery_routed

route-OnlyMarks_example : OnlyMarks "7f3e" received (route mixed envelope event received).1
route-OnlyMarks_example =
    route-OnlyMarks mixed envelope event received (logging ∷ failing ∷ []) failure_message
      mixed_known (logging-LeavesCommits, (failing-LeavesCommits, tt)) failure_failed

route_failed-blocked_example :
    blocked (route mixed envelope event received).1.db "7f3e" "VoucherActiveHandler"
    ≡ blocked received.saved "7f3e" "VoucherActiveHandler"
route_failed-blocked_example =
    route_failed-blocked mixed envelope event received (logging ∷ failing ∷ []) failure_message
      "VoucherActiveHandler" mixed_known (logging-LeavesCommits, (failing-LeavesCommits, tt))
      failure_failed

-- Not blocked: the handler that completed runs again.
failure_blocked : blocked received.saved "7f3e" "VoucherActiveHandler" ≡ false
unfolding Processings.get Common.find_first
failure_blocked = refl

acquire-blocked_example :
    blocked (acquire "7f3e" "VoucherActiveHandler" received).1.db "7f3e" "VoucherActiveHandler"
    ≡ true
acquire-blocked_example = acquire-blocked received "7f3e" "VoucherActiveHandler"

acquire-blocked_other_example :
    blocked (acquire "7f3e" "SendSMSHandler" delivery.1).1.db "7f3e" "VoucherActiveHandler" ≡ true
acquire-blocked_other_example =
    acquire-blocked_other delivery.1 "7f3e" "SendSMSHandler" "VoucherActiveHandler"
      (route-AllBlocked good envelope event received (logging ∷ []) good_known
        (logging-LeavesRouting, tt) delivery_routed).0

resolve-register_example : resolve "VOUCHER.active" (register failing good) ≡ (
    if lower failing.event_type == lower "VOUCHER.active"
    then some (logging ∷ failing ∷ [])
    else resolve "VOUCHER.active" good)
unfolding lookup lower
resolve-register_example = resolve-register "VOUCHER.active" failing good
