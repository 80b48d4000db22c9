-- ===== src/Domain/Values.antt =====
-- app/notifications/domain/value_objects.py
use ushnotice.Common.{
  String, ◌==◌, starts_with, lower, Bool, true, false, Option, none, some, if◌then◌else◌,
}
use ushnotice.Json.{Json, Fields}
use ushnotice.Domain.Enums.{NotificationChannel}

pub record Recipient : Type 0 where
  pub channel : NotificationChannel
  pub address : String
  pub name : String
  pub language : String

-- `Recipient(…)`: Arabic is the language where it is not English. `none` is the `ValueError` for an
-- empty address; `strip` is Python's.
unfoldable pub recipient :
    (String → String) → NotificationChannel → String → String → String → Option Recipient
recipient strip channel address name language =
    if address == ""
    then none
    else some (record {
      channel = channel;
      address = address;
      name = name;
      language = if starts_with (lower (strip language)) "en" then "en" else "ar";
    })

pub record DeliveryResult : Type 0 where
  pub success : Bool
  pub provider_message_id : Option String
  pub raw_response : Json
  pub error_code : Option String
  pub error_message : Option String
  pub is_retryable : Bool

-- `DeliveryResult.ok`
unfoldable pub delivery_ok : String → Json → DeliveryResult
delivery_ok provider_message_id raw_response = record {
  success = true;
  provider_message_id = some provider_message_id;
  raw_response = raw_response;
  error_code = none;
  error_message = none;
  is_retryable = false;
}

-- `DeliveryResult.fail`
unfoldable pub delivery_fail : String → String → Bool → Json → DeliveryResult
delivery_fail error_code error_message is_retryable raw_response = record {
  success = false;
  provider_message_id = none;
  raw_response = raw_response;
  error_code = some error_code;
  error_message = some error_message;
  is_retryable = is_retryable;
}

pub record NotificationRequest : Type 0 where
  pub event_id : String
  pub recipient : Recipient
  pub template_name : String
  pub template_context : Fields
  pub subject : String
  pub customer_id : Option String
  pub booking_id : Option String
  pub correlation_id : Option String
