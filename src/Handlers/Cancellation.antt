-- ===== src/Handlers/Cancellation.antt =====
-- What `BookingCancelledHandler` of app/events/handlers/booking/booking_cancelled.py reads out of the
-- data of the event. none stands for an exception.
use ushnotice.Common.{
  String, ◌==◌, ◌&&◌, ◌||◌, not, Bool, true, Option, some, List, [], ◌∷◌, any, lower, ◌>>=◌,
  if◌then◌else◌,
}
use ushnotice.Common.Int.{ℤ, pos, ltb_ℤ}
use ushnotice.Json.{Json, null, str, num, obj, Fields, end, field, get, or_else, truthy}
use ushnotice.Invoicing.Lines.{attr_get, or_get, or_dict}
use ushnotice.Handlers.Messages.{Setup, get_default, text_or_empty}

-- `v in (…)`
unfoldable pub is_in : String → List String → Bool
is_in t ts = any (λ s. t == s) ts

-- the points of the arrangement if there are any, and otherwise those of the event
unfoldable pub points_of : (Json → Option ℤ) → ℤ → Json → Option ℤ
points_of to_int points null = some points
points_of to_int points v = do
  arranged ← to_int v
  some (if ltb_ℤ (pos 0) arranged then arranged else points)

-- `to_int` is Python's `int`.
unfoldable pub effective_points : (Json → Option ℤ) → Fields → Option ℤ
unfolding points_of
effective_points to_int body = do
  points ← to_int (or_else (get body "loyalty_points") (num true "0"))
  points_of to_int points (get body "arrangement_loyalty_points")

module _ {E : Type 0} (u : Setup E) where
  abbrev pub text : Fields → String → String
  text body key = text_or_empty u (get body key)

  -- `str(a or b or "").lower().strip()`
  abbrev pub status_word : Json → String
  status_word v = u.services.strip (lower (text_or_empty u v))

  -- Whether the booking was paid for with points, by what stands in the event itself.
  unfoldable pub is_rewarded : Fields → Bool
  is_rewarded body =
      text body "booking_type" == "loyalty"
      || (text body "payment_type" == "rewarded"
          || (lower (u.services.str_of (get_default body "payment_status" (str ""))) == "rewarded"
              || truthy (get body "reward_id")))

  unfoldable pub is_loyalty_redemption : Fields → Option Bool
  unfolding is_rewarded
  is_loyalty_redemption body = if is_rewarded body then some true else (do
    let loyalty = get_default body "loyalty_data" (obj end)
    points_cost ← attr_get loyalty "points_cost"
    reward_id ← attr_get loyalty "reward_id"
    some (truthy points_cost || truthy reward_id))

  unfoldable pub is_eligible : Fields → Bool
  is_eligible body =
      truthy (get body "is_eligible_for_loyalty")
      && (not (text body "booking_id" == "") && not (text body "customer_id" == ""))

  unfoldable pub payment_url : Fields → Option Json
  payment_url body = do
    a ← or_get (get body "payment_url") (or_dict (get body "payment_data")) "payment_url"
    b ← or_get a (or_dict (get body "payments_data")) "payment_url"
    some (or_else b (get body "invoice_url"))

  -- the link in a booking that was fetched
  unfoldable pub fetched_url : Fields → Option Json
  fetched_url booking = do
    a ← or_get (get booking "payment_url") (or_dict (get booking "payment_data")) "payment_url"
    some (or_else a (get booking "invoice_url"))

  unfoldable pub is_link : Json → Bool
  unfolding is_in
  is_link url =
      let t = u.services.strip (u.services.str_of url) in
      truthy url && (not (t == "") && not (is_in (lower t) ("none" ∷ "null" ∷ [])))

  abbrev pub raw_payment_status : Fields → String
  raw_payment_status body = status_word (get body "payment_status")

  abbrev pub old_payment_status : Fields → String
  old_payment_status body =
      status_word (or_else (get body "old_payment_status") (get body "previous_payment_status"))

  unfoldable pub is_paid_booking : Fields → Bool
  unfolding is_in
  is_paid_booking body =
      truthy (get body "refund_required")
      || (truthy (get body "refund_issued")
          || (is_in (raw_payment_status body) ("success" ∷ "paid" ∷ [])
              || is_in (old_payment_status body) ("success" ∷ "paid" ∷ [])))

  unfoldable pub is_pending_payment : Fields → Bool
  unfolding is_in is_paid_booking
  is_pending_payment body =
      (is_in (old_payment_status body) ("pending" ∷ "unpaid" ∷ [])
        || is_in (raw_payment_status body)
            ("pending" ∷ "unpaid" ∷ "cancelled" ∷ "payment_pending" ∷ []))
      && not (is_paid_booking body)

  -- `t or "success"`
  abbrev or_success : String → String
  or_success t = if t == "" then "success" else t

  -- what the appointment's payment is set to where its cache cannot be deleted
  unfoldable pub cache_payment_status : Fields → String
  unfolding is_paid_booking
  cache_payment_status body =
      if is_paid_booking body then or_success (raw_payment_status body) else "cancelled"

  unfoldable pub sync_payment_status : Fields → String
  unfolding is_paid_booking is_pending_payment
  sync_payment_status body =
      let raw = raw_payment_status body in
      if raw == "refund_requested"
      then "refund_requested"
      else if is_paid_booking body
      then or_success raw
      else if is_pending_payment body
      then "cancelled"
      else if raw == ""
      then "cancelled"
      else raw

  -- `str(data.get("cancellation_reason") or data.get("reason") or default)`
  unfoldable pub reason_or : Fields → String → String
  reason_or body default =
      u.services.str_of
        (or_else (get body "cancellation_reason") (or_else (get body "reason") (str default)))

  unfoldable pub change_by_user : Fields → String
  change_by_user body = u.services.str_of (
      or_else (get body "change_by_user")
        (or_else (get body "changed_by") (or_else (get body "cancelled_by") (str "ushnotice"))))

  unfoldable pub change_by_user_data : Fields → Json
  unfolding reason_or
  change_by_user_data body = or_else (get body "change_by_user_data") (
      obj (
        field "source" (str "ushnotice")
          (field "reason" (str (reason_or body "Booking cancelled")) end)))

  unfoldable pub is_refund_requested : Fields → Bool
  is_refund_requested body =
      raw_payment_status body == "refund_requested"
      || (truthy (get body "refund_required") || truthy (get body "refund_requested"))
