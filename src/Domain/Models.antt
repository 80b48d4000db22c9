-- ===== src/Domain/Models.antt =====
-- app/notifications/domain/models.py: one record for the rows of each table. The instants
-- (received_at, started_at, completed_at, created_at, updated_at, latency_ms) are left out: the
-- code only sorts by them, and the tables keep their rows newest first.
use ushnotice.Common.{ℕ, String, Bool, Option}
use ushnotice.Common.Int.{ℤ}
use ushnotice.Json.{Json, Fields}
use ushnotice.Domain.Enums.{
  NotificationStatus, EventProcessingStatus, EventStatus, AttemptStatus, ApiRequestStatus,
}

pub record Event : Type 0 where
  pub id : String
  pub event_id : String
  pub event_type : String
  pub version : ℤ
  pub source : String
  pub correlation_id : Option String
  pub causation_id : Option String
  pub payload : Option Fields
  pub status : EventStatus
  pub error : Option String
  pub retry_count : ℕ
  pub sqs_message_id : Option String
  pub sqs_receipt_handle : Option String

pub record EventProcessing : Type 0 where
  pub id : String
  pub event_id : String
  pub handler_name : String
  pub status : EventProcessingStatus
  pub error : Option String

pub record Notification : Type 0 where
  pub id : String
  pub event_id : String
  pub customer_id : Option String
  pub booking_id : Option String
  pub channel : String
  pub recipient : String
  pub recipient_name : Option String
  pub template_name : Option String
  pub subject : Option String
  pub status : NotificationStatus
  pub provider : Option String
  pub retry_count : ℕ
  pub correlation_id : Option String

pub record NotificationStatusHistory : Type 0 where
  pub id : String
  pub notification_id : String
  pub from_status : Option NotificationStatus
  pub to_status : NotificationStatus
  pub reason : Option String

pub record NotificationAttempt : Type 0 where
  pub id : String
  pub notification_id : String
  pub provider : String
  pub attempt_number : ℕ
  pub status : AttemptStatus
  pub provider_message_id : Option String
  pub provider_response : Option Json
  pub error_code : Option String
  pub error_message : Option String
  pub is_retryable : Bool

pub record ApiRequest : Type 0 where
  pub id : String
  pub notification_id : Option String
  pub event_id : Option String
  pub service : String
  pub method : String
  pub path : String
  pub request_body : Option Fields
  pub response_status : Option ℕ
  pub response_body : Option Fields
  pub status : ApiRequestStatus
  pub error : Option String
  pub request_id : Option String
  pub correlation_id : Option String

pub record InboundMessage : Type 0 where
  pub id : String
  pub channel : String
  pub provider : String
  pub provider_message_id : String
  pub from_number : String
  pub to_number_id : Option String
  pub sender_name : Option String
  pub message_type : String
  pub body : Option String
  pub payload : Option Json
  pub is_processed : Bool
