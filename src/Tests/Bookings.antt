-- ===== src/Tests/Bookings.antt =====
-- Events of bookings whose handlers call the other services.
use ushnotice.Common
use ushnotice.Common.{◌≡◌, refl, String, none, some, [], ◌∷◌, true, false}
use ushnotice.Common.Int.{pos}
use ushnotice.Json.{Json, null, bool, str, field, end, obj, get}
use ushnotice.Store.{World, empty_db}
use ushnotice.Events.Envelope.{EventEnvelope}
use ushnotice.Events.Handler.{returned, raised}
use ushnotice.Handlers.Messages.{Step}
use ushnotice.Handlers.Bookings.{reschedule_requested, payment_status_success, change_request}
use ushnotice.Handlers.Bookings.Laws.{
  Recorded, reschedule_requested-Recorded, payment_status_success-outcome,
}
use ushnotice.Handlers.Cancelled.{booking_cancelled}
use ushnotice.Handlers.PendingBooking.{date_of, time_of, padded_text}
use ushnotice.Handlers.LinkPaid.{paid_booking}
use ushnotice.Tests.Redis.{Keys}
use ushnotice.Tests.Registered.{wiring}

abbrev envelope : EventEnvelope
envelope = record {
  event_id = "77aa";
  event_type = "booking.reschedule_requested";
  version = pos 1;
  source = "ushbooknpay";
  correlation_id = none;
  causation_id = none;
  body = field "booking_id" (str "b1") (field "branch_id" (str "s1") end);
}

abbrev world : World Keys
world = record { db = empty_db; saved = empty_db; uuids = λ n. "r1"; env = [] }

-- The call raises, and the row says so.
reschedule_requested-Recorded_example :
    ((reschedule_requested wiring.setup wiring.shapes wiring.accounting wiring.calls envelope
        world).0
      ≡ returned)
    × Recorded
        (change_request wiring.setup wiring.shapes wiring.accounting wiring.calls envelope "text")
        []
        (reschedule_requested wiring.setup wiring.shapes wiring.accounting wiring.calls envelope
          world).1.db.requests
unfolding ushnotice.Invoicing.Lines.attr_get ushnotice.Handlers.Bookings.branch_contacts
    ushnotice.Json.truthy get ushnotice.Tests.Redis.services Common.any
reschedule_requested-Recorded_example =
    reschedule_requested-Recorded wiring.setup wiring.shapes wiring.accounting wiring.calls envelope
      world (str "Salmiya") refl refl refl

abbrev confirms : EventEnvelope → Step Keys
confirms env w = (returned, w)

abbrev fails : EventEnvelope → Step Keys
fails env w = (raised "KeyError", w)

payment_status_success-outcome_example :
    (payment_status_success wiring.setup wiring.shapes wiring.accounting wiring.calls confirms
      envelope world).0
    ≡ (payment_status_success wiring.setup wiring.shapes wiring.accounting wiring.calls fails
        envelope world).0
payment_status_success-outcome_example =
    payment_status_success-outcome wiring.setup wiring.shapes wiring.accounting wiring.calls
      confirms fails envelope world

-- A link's payment over a booking that has its payment data.
paid_amount :
    get
      (paid_booking
        (field "amount" (str "12.000") end)
        (field "booking_id" (str "b1") (field "total_amount" (str "15.000") end)))
      "total_amount"
    ≡ str "12.000"
unfolding get paid_booking ushnotice.Json.put ushnotice.Json.truthy
    ushnotice.Handlers.Services.merge
paid_amount = refl

-- A paid booking: the cache cannot be deleted, and the refund is asked for after the status is changed.
abbrev cancelled : EventEnvelope
cancelled = record envelope {
  body = field "booking_id" (str "b1") (
      field "customer_id" (str "c1") (
        field "is_eligible_for_loyalty" (bool true)
          (field "refund_required" (bool true) (field "payment_url" (str "u") end))));
}

cancelled_calls :
    (booking_cancelled wiring.setup wiring.shapes wiring.calls wiring.cancel cancelled world).1.env
    ≡ "refund" ∷ "status" ∷ "success" ∷ "delete" ∷ "points" ∷ []
unfolding booking_cancelled ushnotice.Handlers.Cancellation.is_loyalty_redemption
    ushnotice.Json.truthy get Common.lower ushnotice.Tests.Redis.services
    ushnotice.Invoicing.Lines.attr_get ushnotice.Handlers.Messages.get_default
    ushnotice.Json.has_key ushnotice.Handlers.Cancellation.is_eligible
    ushnotice.Handlers.Cancellation.effective_points ushnotice.Handlers.Cancellation.payment_url
    ushnotice.Invoicing.Lines.or_get ushnotice.Handlers.Cancellation.is_refund_requested
    ushnotice.Handlers.Cancellation.is_pending_payment Common.any ushnotice.Json.or_else
    ushnotice.Handlers.Cancellation.points_of ushnotice.Handlers.Cancellation.is_link
    ushnotice.Handlers.Cancellation.cache_payment_status
cancelled_calls = refl

-- The start of an appointment, split into its date and its time.
start_split :
    (date_of "2026-01-02T10:30+03:00" ≡ "2026-01-02")
    × (padded_text (time_of (λ t. t) "2026-01-02T10:30+03:00") ≡ "10:30:00")
unfolding date_of Common.contains Common.split_on padded_text time_of
start_split = (refl, refl)

-- A cancellation whose loyalty_data is null raises, and no service is told.
abbrev without_loyalty : EventEnvelope
without_loyalty = record envelope {
  body = field "booking_id" (str "b1") (field "loyalty_data" null end);
}

null_loyalty_raises :
    booking_cancelled wiring.setup wiring.shapes wiring.calls wiring.cancel without_loyalty world
    ≡ (raised "AttributeError", world)
unfolding booking_cancelled ushnotice.Handlers.Cancellation.is_loyalty_redemption
    ushnotice.Json.truthy get Common.lower ushnotice.Tests.Redis.services
    ushnotice.Invoicing.Lines.attr_get ushnotice.Handlers.Messages.get_default
    ushnotice.Json.has_key
null_loyalty_raises = refl
