-- ===== src/Handlers/PendingBooking/Frame.antt =====
-- What the handler of bookings that are being paid for leaves alone.
use ushnotice.Common.{refl, Option, none, some}
use ushnotice.Common.Int.{ℤ}
use ushnotice.Json.{Json}
use ushnotice.Events.Envelope.{EventEnvelope}
use ushnotice.Handlers.Messages.{Setup}
use ushnotice.Handlers.Messages.Frame.{KeepsCore}
use ushnotice.Handlers.Gifts.{Shapes}
use ushnotice.Handlers.PendingBooking.{Slots, with_slot, slot_of, booking_payment_pending}

module _ {E : Type 0} (u : Setup E) (shapes : Shapes) (slots : Slots E) where
  with_slot-KeepsCore :
      (env : EventEnvelope) (slot : Option (Json × Json × ℤ))
      → KeepsCore (with_slot u shapes slots env slot)
  unfolding with_slot
  with_slot-KeepsCore env none = record { kept = λ w. refl }
  with_slot-KeepsCore env (some (date, time, minutes)) = record { kept = λ w. refl }

  pub booking_payment_pending-KeepsCore :
      (env : EventEnvelope) → KeepsCore (booking_payment_pending u shapes slots env)
  unfolding booking_payment_pending
  booking_payment_pending-KeepsCore env = with_slot-KeepsCore env (slot_of u shapes slots env.body)
