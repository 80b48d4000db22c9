-- ===== src/Tests/Registered.antt =====
-- The default registry, and an event of one of its types that is delivered three times.
use ushnotice.Common
use ushnotice.Common.{◌≡◌, refl, String, true, false, Option, some, none, List, [], ◌∷◌, length}
use ushnotice.Common.Int.{pos}
use ushnotice.Json.{Json, str, obj, Fields, field, end}
use ushnotice.Domain.Enums.{EventStatus}
use ushnotice.Domain.Models.{Event}
use ushnotice.Store.{World, empty_db}
use ushnotice.Store.Events.{is_real_id}
use ushnotice.Events.Envelope.{EventEnvelope}
use ushnotice.Events.Handler.{returned}
use ushnotice.Events.Registry.{Registry, resolve}
use ushnotice.Events.Registry.Default.{
  HandlerClass, event_type_of, instance_of, build_default_registry,
}
use ushnotice.Events.Registry.Default.Laws.{length-resolve, resolve-event_type_of}
use ushnotice.Events.Processor.{stored, process_valid}
use ushnotice.Events.Processor.Redelivery.{Untouched}
use ushnotice.Events.Processor.Repeats.{delivered_once, delivered_again}
use ushnotice.Invoicing.Accounting.{answered, refused}
use ushnotice.Handlers.Messages.{Setup}
use ushnotice.Handlers.Gifts.{Shapes}
use ushnotice.Handlers.Calls.{Outside, succeeded}
use ushnotice.Handlers.Services.{BookingCalls, done, failed_with}
use ushnotice.Handlers.Cancelled.{CancelCalls}
use ushnotice.Handlers.PendingBooking.{Slots}
use ushnotice.Handlers.Default.{Wiring, handles, is_self_contained}
use ushnotice.Handlers.Default.Laws.{process_default_repeats}
use ushnotice.Tests.Samples.{queue_ids}
use ushnotice.Tests.Redis.{Keys, services, settings}

abbrev setup : Setup Keys
setup = record {
  services = services;
  settings = settings;
  default_language = "ar";
  integrity_text = "IntegrityError";
}

abbrev shapes : Shapes
shapes = record { is_digit = λ c. true; digits_of_other = λ v. none; error_text = "AttributeError" }

abbrev outside : Outside Keys
outside = record {
  delete_appointment_cache = λ b c e. (succeeded, e);
  activate_scheduled_voucher = λ v r c e. (succeeded, e);
  setex = λ k n v e. k ∷ e;
}

abbrev pub calls : BookingCalls Keys
calls = record {
  upper = λ t. t;
  dict_of_other = λ v. none;
  get_branch_contacts = λ b c e. (answered (obj (field "name" (str "Salmiya") end)), e);
  get_booking = λ b c e. (answered (obj end), e);
  update_booking_status = λ s e. (failed_with "timeout", "status" ∷ e);
  update_appointment_cache_payment_status = λ b p c e. (done (obj end), e);
  mark_invoice_paid = λ i e. e;
  link_refund_credit_note = λ l e. e;
}

abbrev pub cancel : CancelCalls Keys
cancel = record {
  to_int = λ v. some (pos 5);
  cancel_loyalty_points = λ r e. "points" ∷ e;
  delete_appointment_cache_by_booking_id = λ b c e. (refused, "delete" ∷ e);
  update_appointment_cache_status_by_booking_id = λ b s p c e. p ∷ e;
  cancel_payment_link = λ b c e. "link" ∷ e;
  create_refund_request = λ r e. "refund" ∷ e;
}

abbrev pub slots : Slots Keys
slots = record {
  to_int = λ v. some (pos 60);
  rstrip_z = λ t. t;
  date_of_other = λ v. none;
  time_of_other = λ v. none;
  padded_other = λ v. none;
  create_appointment_cache = λ a e. a.booking_id ∷ e;
}

abbrev pub wiring : Wiring Keys
wiring = record {
  setup = setup;
  shapes = shapes;
  accounting = record {
    python = record { decimal = λ v. none; str_of = λ v. "text" };
    accounts = record {
      ushanr_company_id = "";
      ushanr_ar_journal_id = "";
      ushanr_revenue_account_id = "";
      ushanr_addon_account_id = "";
    };
    exact = λ v. none;
    strip = λ t. t;
    ensure_partner = λ p e. (answered (str "partner"), e);
    create_invoice = λ i e. (answered (obj end), e);
    create_credit_note = λ n e. (answered (obj end), e);
    link_payment_invoice = λ l e. (answered tt, e);
    link_booking_invoice = λ l e. (answered tt, e);
    aclose = λ e. (answered tt, e);
    closing_error = "RuntimeError";
  };
  outside = outside;
  calls = calls;
  cancel = cancel;
  slots = slots;
  gift_base_url = "";
  attribute_error = λ v. "AttributeError";
  others = λ c env w. (returned, w);
}

abbrev registry : Registry Keys
registry = build_default_registry (handles wiring)

verified_known :
    resolve "USER.verified" registry
    ≡ some (instance_of (handles wiring) HandlerClass.user_verified_handler ∷ [])
unfolding resolve build_default_registry Common.replace_char Common.lower
verified_known = refl

length-resolve_example :
    length (instance_of (handles wiring) HandlerClass.user_verified_handler ∷ []) ≡ 1
length-resolve_example =
    length-resolve (handles wiring) "USER.verified"
      (instance_of (handles wiring) HandlerClass.user_verified_handler ∷ []) verified_known

resolve-event_type_of_example :
    (resolve "gift.claimed" registry
      ≡ some (instance_of (handles wiring) HandlerClass.gift_claimed_handler ∷ []))
    × (resolve "gift_claimed" registry
        ≡ some (
            record (instance_of (handles wiring) HandlerClass.gift_claimed_handler) {
              event_type = "gift_claimed";
            }
            ∷ []))
unfolding event_type_of Common.replace_char
resolve-event_type_of_example =
    resolve-event_type_of (handles wiring) HandlerClass.gift_claimed_handler

abbrev envelope : EventEnvelope
envelope = record {
  event_id = "55aa";
  event_type = "voucher.payment_pending";
  version = pos 1;
  source = "ushbooknpay";
  correlation_id = none;
  causation_id = none;
  body = field "recipient_phone" (str "965") end;
}

abbrev event : Event
event = record {
  id = "55aa";
  event_id = "55aa";
  event_type = "voucher.payment_pending";
  version = pos 1;
  source = "ushbooknpay";
  correlation_id = none;
  causation_id = none;
  payload = some (field "recipient_phone" (str "965") end);
  status = EventStatus.received;
  error = none;
  retry_count = 0;
  sqs_message_id = some "m-1";
  sqs_receipt_handle = some "r-1";
}

abbrev start : World Keys
start = record { db = empty_db; saved = empty_db; uuids = λ n. "u-1"; env = [] }

pending_modelled : is_self_contained HandlerClass.voucher_payment_pending_handler ≡ true
unfolding is_self_contained
pending_modelled = refl

pending_typed :
    "voucher.payment_pending" ≡ event_type_of HandlerClass.voucher_payment_pending_handler
unfolding event_type_of
pending_typed = refl

id_real : is_real_id "55aa" ≡ true
unfolding is_real_id
id_real = refl

first_stored : (process_valid registry envelope queue_ids start).0 ≡ stored event
unfolding process_valid ushnotice.Events.Router.route resolve Common.lower
    ushnotice.Events.Router.run_handlers ushnotice.Events.Router.run_handler
    ushnotice.Events.Idempotency.acquire ushnotice.Store.Processings.get Common.find_first
    ushnotice.Store.Events.mark_processing ushnotice.Store.commit ushnotice.Store.Events.create
    build_default_registry Common.replace_char handles
    ushnotice.Handlers.Calls.voucher_payment_pending ushnotice.Invoicing.Lines.attr_get
    ushnotice.Json.or_else ushnotice.Json.get ushnotice.Handlers.Gifts.digits
first_stored = refl

process_default_repeats_example :
    Untouched event (process_valid registry envelope queue_ids start).1 (
      process_valid registry envelope queue_ids
        (process_valid registry envelope queue_ids
          (process_valid registry envelope queue_ids start).1).1)
process_default_repeats_example =
    process_default_repeats wiring HandlerClass.voucher_payment_pending_handler envelope queue_ids
      queue_ids start
      (process_valid registry envelope queue_ids
        (process_valid registry envelope queue_ids start).1).1
      event pending_modelled pending_typed id_real first_stored
      (delivered_again queue_ids delivered_once)
