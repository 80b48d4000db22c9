-- ===== src/Handlers/Calls/Frame.antt =====
-- What the handlers of one call leave alone.
use ushnotice.Common.{◌≡◌, refl, String, ◌==◌, Bool-cases, inl, inr, Option, none, some}
use ushnotice.Json.{get, or_else}
use ushnotice.Store.{World}
use ushnotice.Events.Envelope.{EventEnvelope}
use ushnotice.Notify.Service.Frame.{core}
use ushnotice.Handlers.Messages.{Setup, text_or_empty}
use ushnotice.Handlers.Messages.Frame.{KeepsCore}
use ushnotice.Handlers.Gifts.{Shapes}
use ushnotice.Handlers.Calls.{
  Outside, CallResult, succeeded, client_error, other_error, no_show_end, booking_no_show,
  cache_phone, pending_phone, voucher_payment_pending, activated, voucher_delivery_due,
}

module _ {E : Type 0} (u : Setup E) (shapes : Shapes) (outside : Outside E) where
  core-no_show_end :
      (w : World E) (r : CallResult × E) → core (no_show_end u shapes outside w r).1 ≡ core w
  unfolding no_show_end
  core-no_show_end w (succeeded, e) = refl
  core-no_show_end w (client_error status message, e) = refl
  core-no_show_end w (other_error message, e) = refl

  pub booking_no_show-KeepsCore :
      (env : EventEnvelope) → KeepsCore (booking_no_show u shapes outside env)
  unfolding booking_no_show
  booking_no_show-KeepsCore env = record {
    kept = λ w. elim (Bool-cases (text_or_empty u (get env.body "booking_id") == "")) [
      | inl empty ↦ rw (empty, booking_no_show) refl
      | inr full ↦ rw (full, booking_no_show) (core-no_show_end w _)
    ];
  }

  cache_phone-KeepsCore : (o : Option String) → KeepsCore (cache_phone u shapes outside o)
  unfolding cache_phone
  cache_phone-KeepsCore none = record { kept = λ w. refl }
  cache_phone-KeepsCore (some phone) = record {
    kept = λ w. elim (Bool-cases (phone == "")) [
      | inl empty ↦ rw (empty, cache_phone) refl
      | inr full ↦ rw (full, cache_phone) refl
    ];
  }

  pub voucher_payment_pending-KeepsCore :
      (env : EventEnvelope) → KeepsCore (voucher_payment_pending u shapes outside env)
  unfolding voucher_payment_pending
  voucher_payment_pending-KeepsCore env =
      cache_phone-KeepsCore (pending_phone u shapes outside env.body)

  core-activated :
      (w : World E) (r : CallResult × E) → core (activated u shapes outside w r).1 ≡ core w
  unfolding activated
  core-activated w (succeeded, e) = refl
  core-activated w (client_error status message, e) = refl
  core-activated w (other_error message, e) = refl

  pub voucher_delivery_due-KeepsCore :
      (env : EventEnvelope) → KeepsCore (voucher_delivery_due u shapes outside env)
  unfolding voucher_delivery_due
  voucher_delivery_due-KeepsCore env = record {
    kept = λ w.
        elim (Bool-cases
          (text_or_empty u (or_else (get env.body "voucher_id") (get env.body "id")) == "")) [
            | inl empty ↦ rw (empty, voucher_delivery_due) refl
            | inr full ↦ rw (full, voucher_delivery_due) (core-activated w _)
          ];
  }
