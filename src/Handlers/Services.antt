-- ===== src/Handlers/Services.antt =====
-- The calls of other services that the handlers of bookings make through app/integrations, with their
-- arguments in the code's names. The log is left out, and so is the closing of the clients, which is
-- taken to raise nothing.
use ushnotice.Common.{if◌then◌else◌, none, some, String, Option}
use ushnotice.Json.{get, has_key, as_dict, Json, Fields, end, field, put}
use ushnotice.Invoicing.Accounting.{Called}

-- A call answers, or raises an exception with a message.
pub data Attempted (A : Type 0) : Type 0 where
  done : A → Attempted A
  failed_with : String → Attempted A

-- the arguments of `link_refund_credit_note`
pub record RefundLink : Type 0 where
  pub refund_id : Option String
  pub booking_id : Option String
  pub refund_number : Option String
  pub credit_note_number : Json
  pub credit_note_id : Option String
  pub correlation_id : Option String

-- the arguments of `update_booking_status`
pub record StatusUpdate : Type 0 where
  pub booking_id : String
  pub status : String
  pub payment_status : Option String
  pub reason : String
  pub source : Option String
  pub change_by_user : Option String
  pub change_by_user_data : Json
  pub correlation_id : Option String

-- the arguments of `mark_invoice_paid`
pub record PaidInvoice : Type 0 where
  pub invoice_id : Json
  pub invoice_name : Json
  pub source_document_type : String
  pub source_document_id : String
  pub source_document_ref : Json
  pub amount_paid : Json
  pub payment_id : Json

-- A call whose answer and whose exception are not looked at is a function of the world outside.
pub record BookingCalls (E : Type 0) : Type 0 where
  -- `str.upper`
  pub upper : String → String
  -- `dict(v)` of a value that is no dict, none where it raises
  pub dict_of_other : Json → Option Fields
  pub get_branch_contacts : String → Option String → E → Called Json × E
  pub get_booking : Json → Option String → E → Called Json × E
  pub update_booking_status : StatusUpdate → E → Attempted Fields × E
  pub update_appointment_cache_payment_status : Json → Json → Option String → E → Attempted Json × E
  pub mark_invoice_paid : PaidInvoice → E → E
  pub link_refund_credit_note : RefundLink → E → E

-- `{**a, **b}`
unfoldable pub merge : Fields → Fields → Fields
merge a end = a
merge a (field k v rest) = merge (put a k v) rest

-- the booking in an answer, which has it at "data" or is it
unfoldable pub booking_in : Json → Json
booking_in v = elim (as_dict v) [
  | some fields ↦ if has_key fields "data" then get fields "data" else v
  | none ↦ v
]
