-- ===== src/Handlers/PaymentRefunded/Frame.antt =====
-- What the handler of refunds leaves alone.
use ushnotice.Common.{Option, none, some, refl, ◌≡◌, ◌==◌, inl, inr, Bool-cases}
use ushnotice.Json.{Json, Fields, get}
use ushnotice.Store.{World}
use ushnotice.Notify.Service.Frame.{core}
use ushnotice.Events.Envelope.{EventEnvelope}
use ushnotice.Invoicing.Accounting.{Accounting, CreditNote}
use ushnotice.Invoicing.Purchases.{trigger_credit_note}
use ushnotice.Handlers.Messages.{Setup, sms_of, email_of, text_or_empty}
use ushnotice.Handlers.Messages.Frame.{KeepsCore, then_do-KeepsCore, notify-KeepsCore}
use ushnotice.Handlers.PaymentRefunded.{payment_refunded, credit_refund, credit, after_credit}

module _ {E : Type 0} (u : Setup E) (accounting : Accounting E) where
  core-after_credit :
      (w : World E) (r : Option (Option Json) × E) → core (after_credit u accounting w r).1 ≡ core w
  unfolding after_credit
  core-after_credit w (none, e) = refl
  core-after_credit w (some _, e) = refl

  core-credit : (note : CreditNote) (w : World E) → core (credit u accounting note w).1 ≡ core w
  unfolding credit
  core-credit note w = core-after_credit w (trigger_credit_note accounting note w.env)

  core-credit_refund :
      (body : Fields) (w : World E) → core (credit_refund u accounting body w).1 ≡ core w
  unfolding credit_refund
  core-credit_refund body w = elim (Bool-cases (text_or_empty u (get body "booking_id") == "")) [
    | inl no_booking ↦ elim (Bool-cases (text_or_empty u (get body "voucher_id") == "")) [
      | inl no_voucher ↦ rw (no_booking, credit_refund) (rw (no_voucher, credit_refund) refl)
      | inr voucher ↦ rw (no_booking, credit_refund) (rw (voucher, credit_refund) (core-credit _ w))
    ]
    | inr booking ↦ rw (booking, credit_refund) (core-credit _ w)
  ]

  credit_refund-KeepsCore : (body : Fields) → KeepsCore (credit_refund u accounting body)
  credit_refund-KeepsCore body = record { kept = core-credit_refund body }

  pub payment_refunded-KeepsCore :
      (env : EventEnvelope) → KeepsCore (payment_refunded u accounting env)
  unfolding payment_refunded
  payment_refunded-KeepsCore env =
      then_do-KeepsCore _ _ (notify-KeepsCore u (sms_of u env.body) _) (
        then_do-KeepsCore _ _ (notify-KeepsCore u (email_of u env.body) _)
          (credit_refund-KeepsCore env.body))
