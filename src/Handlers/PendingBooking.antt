-- ===== src/Handlers/PendingBooking.antt =====
-- `BookingPaymentPendingHandler` of app/events/handlers/booking/payment_pending.py, with
-- `_cache_services` of _services.py: the slot of a booking is reserved in ushauth while it is being paid
-- for. It sends no message. none stands for an exception.
pub mod Frame
use ushnotice.Common.{
  ℕ, zero, suc, String, ◌==◌, ◌<>◌, ◌||◌, Bool, true, Option, none, some, List, [], ◌∷◌, contains,
  split_on, size, leb, nat_eq, ◌>>=◌, if◌then◌else◌,
}
use ushnotice.Common.Int.{ℤ}
use ushnotice.Json.{Json, str, num, arr, obj, Items, nil, cons, Fields, get, or_else, truthy}
use ushnotice.Store.{World}
use ushnotice.Events.Envelope.{EventEnvelope}
use ushnotice.Events.Handler.{Outcome, returned, raised}
use ushnotice.Invoicing.Lines.{or_get, or_dict}
use ushnotice.Handlers.Messages.{Setup, Step, text_or_empty, get_default, optional}
use ushnotice.Handlers.Gifts.{Shapes}

-- an entry of the services of an appointment
pub record CacheService : Type 0 where
  pub service_id : Option String
  pub service_name : Option String
  pub service_arrangement_id : Option String
  pub service_arrangement_name : Option String
  pub duration_minutes : ℤ

-- the arguments of `create_appointment_cache` that the handler gives
pub record Appointment : Type 0 where
  pub service_arrangement_id : Option String
  pub therapist_id : String
  pub booking_id : String
  pub appointment_date : Json
  pub appointment_time : Json
  pub booking_type : String
  pub duration : ℤ
  pub status : String
  pub customer_id : Option String
  pub customer_name : Option String
  pub branch_id : Option String
  pub service_id : Option String
  pub payment_status : String
  pub correlation_id : Option String
  pub services : Option (List CacheService)
  pub sessions : Json
  pub secondary_therapist_id : Option String
  pub secondary_therapist_name : Option String

-- Python's functions, and the call, whose answer and exceptions are only logged. `start_of_other` is
-- the date and the time of an appointment_start that is no text, `padded_other` the padding of a time
-- that is none.
pub record Slots (E : Type 0) : Type 0 where
  pub to_int : Json → Option ℤ
  -- `t.rstrip("Z")`
  pub rstrip_z : String → String
  pub date_of_other : Json → Option String
  pub time_of_other : Json → Option String
  pub padded_other : Json → Option Json
  pub create_appointment_cache : Appointment → E → E

-- the part at an index of a split, which is there
part : ℕ → List String → String
part n [] = ""
part zero (t ∷ ts) = t
part (suc n) (t ∷ ts) = part n ts

-- `t.split("T")[0]`
unfoldable pub date_of : String → String
unfolding part
date_of t = if contains t "T" then part 0 (split_on 84 t) else ""

-- `t.split("T")[1].rstrip("Z").split("+")[0]`
unfoldable pub time_of : (String → String) → String → String
unfolding part
time_of rstrip_z t =
    if contains t "T" then part 0 (split_on 43 (rstrip_z (part 1 (split_on 84 t)))) else ""

unfoldable pub padded_text : String → String
padded_text t = if leb 8 (size t) then t else if nat_eq (size t) 5 then t <> ":00" else t

-- ushauth knows three types of booking.
unfoldable pub cache_booking_type : String → String
cache_booking_type t =
    if t == "home_service"
    then "home"
    else if t == "branch" || (t == "home" || t == "leave")
    then t
    else "branch"

module _ {E : Type 0} (u : Setup E) (shapes : Shapes) (slots : Slots E) where
  abbrev text : Fields → String → String
  text body key = text_or_empty u (get body key)

  date_in : Json → Option String
  unfolding date_of
  date_in (str t) = some (date_of t)
  date_in v = slots.date_of_other v

  time_in : Json → Option String
  unfolding time_of
  time_in (str t) = some (time_of slots.rstrip_z t)
  time_in v = slots.time_of_other v

  abbrev start_of : Fields → Json
  start_of body = or_else (get body "appointment_start") (str "")

  or_text : Json → Option String → Option Json
  or_text v t = if truthy v then some v else (do s ← t; some (str s))

  unfoldable pub appointment_date : Fields → Option Json
  unfolding date_in or_text
  appointment_date body = or_text (get body "appointment_date") (date_in (start_of body))

  padded : Json → Option Json
  unfolding padded_text
  padded (str t) = some (str (padded_text t))
  padded v = slots.padded_other v

  unfoldable pub appointment_time : Fields → Option Json
  unfolding time_in or_text padded
  appointment_time body = do
    let named = or_else (get body "appointment_starttime") (get body "appointment_time")
    time ← or_text named (time_in (start_of body))
    padded time

  unfoldable pub duration_of : Fields → Option ℤ
  duration_of body = slots.to_int (
      or_else (get body "total_duration")
        (or_else (get body "duration_minutes") (num Bool.false "60")))

  cache_service : Fields → Option CacheService
  cache_service s = do
    minutes ← slots.to_int (or_else (get s "duration_minutes") (num true "0"))
    let service : CacheService = record {
      service_id = optional (text s "service_id");
      service_name = optional (text s "service_name");
      service_arrangement_id = optional (text s "service_arrangement_id");
      service_arrangement_name = optional (text s "service_arrangement_name");
      duration_minutes = minutes;
    }
    some service

  -- The dicts among the entries.
  unfoldable pub entries : Items → Option (List CacheService)
  unfolding cache_service
  entries nil = some []
  entries (cons (obj s) rest) = do
    service ← cache_service s
    services ← entries rest
    some (service ∷ services)
  entries (cons _ rest) = entries rest

  -- The services of an event that lists more than one.
  unfoldable pub cache_services : Json → Option (Option (List CacheService))
  unfolding entries
  cache_services (arr (cons a (cons b rest))) = do
    services ← entries (cons a (cons b rest))
    some (some services)
  cache_services _ = some none

  unfoldable pub secondary_name : Fields → Option String
  secondary_name body = do
    name ←
        or_get (get body "secondary_therapist_name") (or_dict (get body "secondary_therapist_data"))
          "name"
    some (text_or_empty u name)

  unfoldable pub appointment : EventEnvelope → Json → Json → ℤ → Option Appointment
  unfolding cache_services secondary_name cache_booking_type
  appointment env date time minutes = do
    let body = env.body
    let secondary_id = text body "secondary_therapist_id"
    name ← secondary_name body
    services ← cache_services (get body "services")
    let a : Appointment = record {
      service_arrangement_id = optional (text body "service_arrangement_id");
      therapist_id = text body "therapist_id";
      booking_id = text body "booking_id";
      appointment_date = date;
      appointment_time = time;
      booking_type =
          cache_booking_type (u.services.str_of (or_else (get body "booking_type") (str "branch")));
      duration = minutes;
      status = "pending";
      customer_id = optional (text body "customer_id");
      customer_name = optional (text body "customer_name");
      branch_id = optional (text body "branch_id");
      service_id = optional (text body "service_id");
      payment_status = "pending";
      correlation_id = env.correlation_id;
      services = services;
      sessions = get body "sessions";
      secondary_therapist_id = optional secondary_id;
      secondary_therapist_name = if secondary_id == "" then none else optional name;
    }
    some a

  create : Option Appointment → E → E
  create none e = e
  create (some a) e = slots.create_appointment_cache a e

  -- An exception in the making of the call's arguments is only logged, as the call's are.
  unfoldable pub reserve : EventEnvelope → Json → Json → ℤ → E → E
  unfolding appointment create
  reserve env date time minutes e =
      if text env.body "booking_id" == "" then e else create (appointment env date time minutes) e

  -- the date, the time and the minutes, whose exceptions leave the handler
  unfoldable pub slot_of : Fields → Option (Json × Json × ℤ)
  unfolding appointment_date appointment_time duration_of
  slot_of body = do
    date ← appointment_date body
    time ← appointment_time body
    minutes ← duration_of body
    some (date, time, minutes)

  unfoldable pub with_slot : EventEnvelope → Option (Json × Json × ℤ) → Step E
  unfolding reserve
  with_slot env none w = (raised shapes.error_text, w)
  with_slot env (some (date, time, minutes)) w =
      (returned, record w { env = reserve env date time minutes w.env })

  unfoldable pub booking_payment_pending : EventEnvelope → Step E
  unfolding with_slot slot_of
  booking_payment_pending env = with_slot env (slot_of env.body)
