-- ===== src/Handlers/Bookings/Laws.antt =====
-- What the handlers of bookings promise of the row of a request and of their own outcome.
use ushnotice.Common.{
  String, ◌≡◌, refl, ◌==◌, inl, inr, none, some, Bool-cases, Option-cases, List, [], ◌∷◌,
  update_where, any, eq_refl, arith, Bool, true, false,
}
use ushnotice.Json.{Json, Fields, get, truthy}
use ushnotice.Domain.Enums.{ApiRequestStatus}
use ushnotice.Domain.Models.{ApiRequest}
use ushnotice.Store.{World, uuid4}
use ushnotice.Store.Requests
use ushnotice.Store.Requests.{NewRequest}
use ushnotice.Events.Envelope.{EventEnvelope}
use ushnotice.Events.Handler.{returned}
use ushnotice.Invoicing.Lines.{attr_get}
use ushnotice.Invoicing.Accounting.{Accounting}
use ushnotice.Handlers.Messages.{Setup, Step, text_or_empty}
use ushnotice.Handlers.Gifts.{Shapes}
use ushnotice.Handlers.Services.{BookingCalls, Attempted, done, failed_with}
use ushnotice.Handlers.Bookings.{
  record_answer, call_status, payment_status_success, after_cache, confirm, with_contacts,
  reschedule_requested, change_request, branch_contacts,
}

-- neither pending nor timed out
unfoldable pub is_settled : ApiRequestStatus → Bool
is_settled ApiRequestStatus.pending = false
is_settled ApiRequestStatus.success = true
is_settled ApiRequestStatus.failed = true
is_settled ApiRequestStatus.timed_out = false

-- One row was added, which is settled and has what the new request says; the others are as before.
pub record Recorded (n : NewRequest) (before after : List ApiRequest) : Type 0 where
  pub row : ApiRequest
  pub rows : after ≡ row ∷ before
  pub settled : is_settled row.status ≡ true
  pub path : row.path ≡ n.path
  pub event_id : row.event_id ≡ n.event_id
  pub request_body : row.request_body ≡ n.request_body

abbrev is_row : ApiRequest → ApiRequest → Bool
is_row r q = q.id == r.id

update_where_missing :
    (r r' : ApiRequest) (rs : List ApiRequest)
    → any (is_row r) rs ≡ false
    → update_where (is_row r) (λ _. r') rs ≡ rs
unfolding update_where any
update_where_missing r r' [] h = refl
update_where_missing r r' (q ∷ rs) h = ground (arith, update_where_missing r r' rs)

-- The row at the front is the one that is written.
update_where_front :
    (r r' : ApiRequest) (rs : List ApiRequest)
    → any (is_row r) rs ≡ false
    → update_where (is_row r) (λ _. r') (r ∷ rs) ≡ r' ∷ rs
unfolding update_where
update_where_front r r' rs h = rw (eq_refl r.id, update_where_missing r r' rs h) refl

module _ {E : Type 0} (u : Setup E) (shapes : Shapes) (accounting : Accounting E)
    (calls : BookingCalls E) where
  record_answer-Recorded :
      (n : NewRequest) (w : World E) (a : Attempted Fields × E)
      → any (λ q. q.id == w.uuids 0) w.db.requests ≡ false
      → Recorded n w.db.requests
          (record_answer u shapes accounting calls
            (Requests.create n w).0
            (Requests.create n w).1
            a).db.requests
  unfolding record_answer Requests.create Requests.mark_success Requests.mark_failed is_settled
      uuid4
  record_answer-Recorded n w (done answer, e) h = record {
    row = record (Requests.create n w).0 {
      status = ApiRequestStatus.success;
      response_status = some 200;
      response_body = some answer;
    };
    rows = update_where_front (Requests.create n w).0 _ w.db.requests h;
    settled = refl;
    path = refl;
    event_id = refl;
    request_body = refl;
  }
  record_answer-Recorded n w (failed_with message, e) h = record {
    row = record (Requests.create n w).0 {
      status = ApiRequestStatus.failed;
      error = some message;
      response_status = none;
    };
    rows = update_where_front (Requests.create n w).0 _ w.db.requests h;
    settled = refl;
    path = refl;
    event_id = refl;
    request_body = refl;
  }

  call_status-Recorded :
      (env : EventEnvelope) (booking_id : String) (n : NewRequest) (w : World E)
      → any (λ q. q.id == w.uuids 0) w.db.requests ≡ false
      → Recorded n w.db.requests
          (call_status u shapes accounting calls env booking_id (Requests.create n w)).db.requests
  unfolding call_status Requests.create
  call_status-Recorded env booking_id n w h = record_answer-Recorded n w _ h

  with_contacts-Recorded :
      (env : EventEnvelope) (w : World E) (c : Json × E) (name : Json)
      → let booking_id = text_or_empty u (get env.body "booking_id") in
        let r = with_contacts u shapes accounting calls env w c in
        attr_get c.0 "name" ≡ some name
        → (booking_id == "") ≡ false
        → any (λ q. q.id == w.uuids 0) w.db.requests ≡ false
        → (r.0 ≡ returned)
          × Recorded
              (change_request u shapes accounting calls env booking_id)
              w.db.requests
              r.1.db.requests
  unfolding with_contacts
  with_contacts-Recorded env w (c, e) name h full new =
      rw (h, full, with_contacts) (refl, call_status-Recorded env _ _ (record w { env = e }) new)

  -- For an event that names a booking, whose branch's contacts are a dict, with a next UUID that is
  -- the id of no request, the handler, apart from the closing of its clients, returns whether or
  -- not ushbooknpay answers, and adds exactly one row to the requests, which is SUCCESS or FAILED
  -- and has the event, the path and the body of the request; the other rows are as before.
  pub reschedule_requested-Recorded :
      (env : EventEnvelope) (w : World E) (name : Json)
      → let booking_id = text_or_empty u (get env.body "booking_id") in
        let r = reschedule_requested u shapes accounting calls env w in
        attr_get (branch_contacts u shapes accounting calls env w.env).0 "name" ≡ some name
        → (booking_id == "") ≡ false
        → any (λ q. q.id == w.uuids 0) w.db.requests ≡ false
        → (r.0 ≡ returned)
          × Recorded
              (change_request u shapes accounting calls env booking_id)
              w.db.requests
              r.1.db.requests
  unfolding reschedule_requested
  reschedule_requested-Recorded env w name named full new =
      with_contacts-Recorded env w (branch_contacts u shapes accounting calls env w.env) name named
        full new

  module _ (confirmed confirmed' : EventEnvelope → Step E) where
    after_cache-outcome :
        (env : EventEnvelope) (w : World E) (a : Attempted Json × E)
        → (after_cache u shapes accounting calls confirmed env w a).0
          ≡ (after_cache u shapes accounting calls confirmed' env w a).0
    unfolding after_cache confirm
    after_cache-outcome env w (failed_with message, e) = refl
    after_cache-outcome env w (done answer, e) =
        elim (Option-cases (attr_get answer "records_updated")) [
          | inl missing ↦ rw (missing, after_cache) refl
          | inr (v, found) ↦ rw (found, after_cache) refl
        ]

    -- Whether BookingPaymentStatusSuccessHandler returns or raises, and with which message, does
    -- not depend on what the handler of confirmed bookings does that it ends with.
    pub payment_status_success-outcome :
        (env : EventEnvelope) (w : World E)
        → (payment_status_success u shapes accounting calls confirmed env w).0
          ≡ (payment_status_success u shapes accounting calls confirmed' env w).0
    unfolding payment_status_success
    payment_status_success-outcome env w = elim (Bool-cases (truthy (get env.body "booking_id"))) [
      | inl named ↦ rw (named, payment_status_success) (after_cache-outcome env w _)
      | inr missing ↦ rw (missing, payment_status_success) refl
    ]
