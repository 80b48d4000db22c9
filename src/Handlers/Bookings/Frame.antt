-- ===== src/Handlers/Bookings/Frame.antt =====
-- What the handler of reschedule requests leaves alone.
use ushnotice.Common.{String, ◌≡◌, refl, ◌==◌, inl, inr, none, some, Option, Bool-cases}
use ushnotice.Json.{Json, Fields, get}
use ushnotice.Domain.Models.{ApiRequest}
use ushnotice.Store.{World}
use ushnotice.Store.Requests
use ushnotice.Store.Requests.{NewRequest}
use ushnotice.Events.Envelope.{EventEnvelope}
use ushnotice.Invoicing.Lines.{attr_get}
use ushnotice.Invoicing.Accounting.{Accounting}
use ushnotice.Notify.Service.Frame.{core}
use ushnotice.Handlers.Messages.{Setup, text_or_empty}
use ushnotice.Handlers.Messages.Frame.{KeepsCore}
use ushnotice.Handlers.Gifts.{Shapes}
use ushnotice.Handlers.Services.{BookingCalls, Attempted, done, failed_with}
use ushnotice.Handlers.Bookings.{
  record_answer, call_status, with_contacts, reschedule_requested, change_request,
}

module _ {E : Type 0} (u : Setup E) (shapes : Shapes) (accounting : Accounting E)
    (calls : BookingCalls E) where
  core-record_answer :
      (r : ApiRequest) (w : World E) (a : Attempted Fields × E)
      → core (record_answer u shapes accounting calls r w a) ≡ core w
  unfolding record_answer Requests.mark_success Requests.mark_failed
  core-record_answer r w (done answer, e) = refl
  core-record_answer r w (failed_with message, e) = refl

  core-request_change :
      (env : EventEnvelope) (booking_id : String) (w : World E)
      → core (
          call_status u shapes accounting calls env booking_id
            (Requests.create (change_request u shapes accounting calls env booking_id) w))
        ≡ core w
  unfolding call_status Requests.create
  core-request_change env booking_id w = core-record_answer _ (Requests.create _ w).1 _

  core-with_contacts :
      (env : EventEnvelope) (w : World E) (c : Json) (e : E) (named : Option Json)
      → attr_get c "name" ≡ named
      → core (with_contacts u shapes accounting calls env w (c, e)).1 ≡ core w
  unfolding with_contacts
  core-with_contacts env w c e none h = rw (h, with_contacts) refl
  core-with_contacts env w c e (some _) h =
      elim (Bool-cases (text_or_empty u (get env.body "booking_id") == "")) [
        | inl empty ↦ rw (h, empty, with_contacts) refl
        | inr full ↦ rw (h, full, with_contacts) (core-request_change env _ (record w { env = e }))
      ]

  pub reschedule_requested-KeepsCore :
      (env : EventEnvelope) → KeepsCore (reschedule_requested u shapes accounting calls env)
  unfolding reschedule_requested
  reschedule_requested-KeepsCore env = record { kept = λ w. core-with_contacts env w _ _ _ refl }
