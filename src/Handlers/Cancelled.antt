-- ===== src/Handlers/Cancelled.antt =====
-- `BookingCancelledHandler` of app/events/handlers/booking/booking_cancelled.py: the calls of the other
-- services in their order. The exceptions of the calls are only logged.
pub mod Frame
use ushnotice.Common.{
  String, ◌==◌, ◌&&◌, not, Bool, true, false, Option, none, some, ◌>>=◌, if◌then◌else◌,
}
use ushnotice.Common.Int.{ℤ, pos, ltb_ℤ}
use ushnotice.Json.{Json, num, str, obj, Fields, get, or_else, truthy, as_dict}
use ushnotice.Store.{World}
use ushnotice.Events.Envelope.{EventEnvelope}
use ushnotice.Events.Handler.{Outcome, returned, raised}
use ushnotice.Invoicing.Accounting.{Called, answered, refused}
use ushnotice.Handlers.Messages.{Setup, Step}
use ushnotice.Handlers.Gifts.{Shapes}
use ushnotice.Handlers.Services.{BookingCalls, StatusUpdate, booking_in}
use ushnotice.Handlers.Cancellation.{
  text, is_loyalty_redemption, is_eligible, effective_points, payment_url, fetched_url, is_link,
  is_pending_payment, cache_payment_status, sync_payment_status, reason_or, change_by_user,
  change_by_user_data, is_refund_requested,
}

-- the arguments of `cancel_loyalty_points`
pub record Reversal : Type 0 where
  pub customer_id : String
  pub points : ℤ
  pub booking_id : String
  pub booking_number : String
  pub correlation_id : Option String

-- the arguments of `create_refund_request`
pub record RefundRequest : Type 0 where
  pub booking_id : String
  pub payment_id : Option String
  pub invoice_id : Option String
  pub invoice_number : Option String
  pub refund_amount : Json
  pub cancellation_fee : Json
  pub reason : String
  pub change_by_user : Option String
  pub change_by_user_data : Option Fields
  pub correlation_id : Option String

-- The calls that only a cancellation makes; `to_int` is Python's `int`, none where it raises.
pub record CancelCalls (E : Type 0) : Type 0 where
  pub to_int : Json → Option ℤ
  pub cancel_loyalty_points : Reversal → E → E
  pub delete_appointment_cache_by_booking_id : String → Option String → E → Called Unit × E
  -- the booking, the new status and the payment's
  pub update_appointment_cache_status_by_booking_id :
      String → String → String → Option String → E → E
  pub cancel_payment_link : String → Option String → E → E
  pub create_refund_request : RefundRequest → E → E

module _ {E : Type 0} (u : Setup E) (shapes : Shapes) (calls : BookingCalls E)
    (cancel : CancelCalls E) where
  abbrev booking_id_of : EventEnvelope → String
  booking_id_of env = text u env.body "booking_id"

  reversed : EventEnvelope → E → ℤ → E
  reversed env e points =
      let reversal : Reversal = record {
        customer_id = text u env.body "customer_id";
        points = points;
        booking_id = booking_id_of env;
        booking_number = text u env.body "booking_number";
        correlation_id = env.correlation_id;
      } in
      if ltb_ℤ (pos 0) points then cancel.cancel_loyalty_points reversal e else e

  -- The points that the booking earned are taken back, unless it was paid for with points.
  unfoldable pub reverse_loyalty : EventEnvelope → E → Option E
  unfolding reversed
  reverse_loyalty env e = do
    is_redemption ← is_loyalty_redemption u env.body
    if not is_redemption && is_eligible u env.body
        then (do points ← effective_points cancel.to_int env.body; some (reversed env e points))
        else some e

  is_linked : Option Json → Bool
  is_linked none = false
  is_linked (some url) = is_link u url

  link_of : Called Json × E → Bool × E
  unfolding is_linked
  link_of (refused, e) = (false, e)
  link_of (answered v, e) = (
    elim (as_dict (booking_in v)) [
      | some booking ↦ is_linked (fetched_url u booking)
      | none ↦ false
    ],
    e,
  )

  -- Whether there is a link to pay the booking with; where the event of a pending booking has none,
  -- the booking is fetched.
  unfoldable pub find_link : EventEnvelope → Json → E → Bool × E
  unfolding link_of
  find_link env url e =
      if is_link u url
      then (true, e)
      else if is_pending_payment u env.body
      then link_of (calls.get_booking (str (booking_id_of env)) env.correlation_id e)
      else (false, e)

  delete_or_update : EventEnvelope → Called Unit × E → E
  delete_or_update env (answered _, e) = e
  delete_or_update env (refused, e) =
      cancel.update_appointment_cache_status_by_booking_id (booking_id_of env) "cancelled"
        (cache_payment_status u env.body) env.correlation_id e

  unfoldable pub delete_cache : EventEnvelope → E → E
  unfolding delete_or_update
  delete_cache env e =
      delete_or_update env
        (cancel.delete_appointment_cache_by_booking_id (booking_id_of env) env.correlation_id e)

  unfoldable pub drop_link : EventEnvelope → Bool → E → E
  drop_link env has_payment_link e =
      if is_pending_payment u env.body && has_payment_link
      then cancel.cancel_payment_link (booking_id_of env) env.correlation_id e
      else e

  unfoldable pub sync_status : EventEnvelope → E → E
  sync_status env e =
      let update : StatusUpdate = record {
        booking_id = booking_id_of env;
        status = "cancelled";
        payment_status = some (sync_payment_status u env.body);
        reason = reason_or u env.body "Booking cancelled";
        source = some "ushnotice";
        change_by_user = some (change_by_user u env.body);
        change_by_user_data = change_by_user_data u env.body;
        correlation_id = env.correlation_id;
      } in
      (calls.update_booking_status update e).1

  -- `str(v) if v else None`
  abbrev some_text : Json → Option String
  some_text v = if truthy v then some (u.services.str_of v) else none

  unfoldable pub request_refund : EventEnvelope → E → E
  request_refund env e =
      let body = env.body in
      let request : RefundRequest = record {
        booking_id = booking_id_of env;
        payment_id = some_text (get body "payment_id");
        invoice_id = some_text (get body "invoice_id");
        invoice_number = some_text (get body "invoice_number");
        refund_amount = or_else (get body "refund_amount") (get body "refundable_amount");
        cancellation_fee = or_else (get body "cancellation_fee") (num true "0");
        reason = reason_or u body "Booking cancellation refund requested";
        change_by_user = some_text (or_else (get body "change_by_user") (get body "cancelled_by"));
        change_by_user_data = as_dict (change_by_user_data u body);
        correlation_id = env.correlation_id;
      } in
      if is_refund_requested u body then cancel.create_refund_request request e else e

  after_link : EventEnvelope → Bool × E → E
  unfolding delete_cache drop_link sync_status request_refund
  after_link env (has_payment_link, e) =
      request_refund env (sync_status env (drop_link env has_payment_link (delete_cache env e)))

  -- The services are told, each whether or not the ones before raised.
  unfoldable pub tell_cancelled : EventEnvelope → Json → E → E
  unfolding find_link after_link
  tell_cancelled env url e = after_link env (find_link env url e)

  -- An exception before the services are told leaves the handler.
  unfoldable pub with_url : EventEnvelope → Option Json → E → World E → Outcome × World E
  unfolding tell_cancelled
  with_url env none e w = (raised shapes.error_text, record w { env = e })
  with_url env (some url) e w = (returned, record w { env = tell_cancelled env url e })

  unfoldable pub after_loyalty : EventEnvelope → Option E → World E → Outcome × World E
  unfolding with_url
  after_loyalty env none w = (raised shapes.error_text, w)
  after_loyalty env (some e) w =
      if booking_id_of env == ""
      then (returned, record w { env = e })
      else with_url env (payment_url u env.body) e w

  unfoldable pub booking_cancelled : EventEnvelope → Step E
  unfolding after_loyalty reverse_loyalty
  booking_cancelled env w = after_loyalty env (reverse_loyalty env w.env) w
