-- ===== src/Handlers/Refunds/Frame.antt =====
-- What the handlers of refunds of bookings leave alone.
use ushnotice.Json.{Json}
use ushnotice.Store.{World}
use ushnotice.Notify.Service.Frame.{core}
use ushnotice.Common.{◌≡◌, ◌==◌, Option, none, some, refl, inl, inr, Bool-cases}
use ushnotice.Events.Envelope.{EventEnvelope}
use ushnotice.Invoicing.Accounting.{Accounting, CreditNote}
use ushnotice.Invoicing.Purchases.{trigger_credit_note}
use ushnotice.Handlers.Messages.{Setup}
use ushnotice.Handlers.Messages.Frame.{KeepsCore}
use ushnotice.Handlers.Services.{BookingCalls}
use ushnotice.Handlers.Refunds.{
  approved_note, link_after, credit_and_link, refund_completed, refund_approved, is_in_points,
  approved_method,
}

module _ {E : Type 0} (u : Setup E) (accounting : Accounting E) (calls : BookingCalls E) where
  core-link_after :
      (env : EventEnvelope) (w : World E) (r : Option (Option Json) × E)
      → core (link_after u accounting calls env w r).1 ≡ core w
  unfolding link_after
  core-link_after env w (none, e) = refl
  core-link_after env w (some _, e) = refl

  credit_and_link-KeepsCore :
      (env : EventEnvelope) (note : CreditNote)
      → KeepsCore (credit_and_link u accounting calls env note)
  unfolding credit_and_link
  credit_and_link-KeepsCore env note = record {
    kept = λ w. elim (Bool-cases (note.source_document_id == "")) [
      | inl empty ↦ rw (empty, credit_and_link) (core-link_after env w (some none, w.env))
      | inr full ↦
          rw (full, credit_and_link)
            (core-link_after env w (trigger_credit_note accounting note w.env))
    ];
  }

  pub refund_completed-KeepsCore :
      (env : EventEnvelope) → KeepsCore (refund_completed u accounting calls env)
  unfolding refund_completed
  refund_completed-KeepsCore env = credit_and_link-KeepsCore env _

  pub refund_approved-KeepsCore :
      (env : EventEnvelope) → KeepsCore (refund_approved u accounting calls env)
  unfolding refund_approved
  refund_approved-KeepsCore env = record {
    kept = λ w.
        elim (Bool-cases
          (is_in_points u accounting calls (approved_method u accounting calls env.body))) [
            | inl points ↦ rw (points, refund_approved) refl
            | inr money ↦
                rw (money, refund_approved)
                  ((credit_and_link-KeepsCore env (
                      approved_note u accounting calls env.body
                        (approved_method u accounting calls env.body))).kept
                    w)
          ];
  }
