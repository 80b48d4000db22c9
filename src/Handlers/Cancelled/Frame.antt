-- ===== src/Handlers/Cancelled/Frame.antt =====
-- What the handler of cancelled bookings leaves alone.
use ushnotice.Common.{◌≡◌, refl, ◌==◌, inl, inr, Bool-cases, Option, none, some}
use ushnotice.Json.{Json}
use ushnotice.Store.{World}
use ushnotice.Events.Envelope.{EventEnvelope}
use ushnotice.Notify.Service.Frame.{core}
use ushnotice.Handlers.Messages.{Setup}
use ushnotice.Handlers.Messages.Frame.{KeepsCore}
use ushnotice.Handlers.Gifts.{Shapes}
use ushnotice.Handlers.Services.{BookingCalls}
use ushnotice.Handlers.Cancellation.{text}
use ushnotice.Handlers.Cancelled.{CancelCalls, with_url, after_loyalty, booking_cancelled}

module _ {E : Type 0} (u : Setup E) (shapes : Shapes) (calls : BookingCalls E)
    (cancel : CancelCalls E) where
  core-with_url :
      (env : EventEnvelope) (url : Option Json) (e : E) (w : World E)
      → core (with_url u shapes calls cancel env url e w).1 ≡ core w
  unfolding with_url
  core-with_url env none e w = refl
  core-with_url env (some url) e w = refl

  core-after_loyalty :
      (env : EventEnvelope) (reversed : Option E) (w : World E)
      → core (after_loyalty u shapes calls cancel env reversed w).1 ≡ core w
  unfolding after_loyalty
  core-after_loyalty env none w = refl
  core-after_loyalty env (some e) w = elim (Bool-cases (text u env.body "booking_id" == "")) [
    | inl empty ↦ rw (empty, after_loyalty) refl
    | inr full ↦ rw (full, after_loyalty) (core-with_url env _ e w)
  ]

  pub booking_cancelled-KeepsCore :
      (env : EventEnvelope) → KeepsCore (booking_cancelled u shapes calls cancel env)
  unfolding booking_cancelled
  booking_cancelled-KeepsCore env = record { kept = λ w. core-after_loyalty env _ w }
