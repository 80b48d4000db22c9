-- ===== src/Domain/Enums.antt =====
-- app/notifications/domain/enums.py
use ushnotice.Common.{String}

pub data NotificationStatus : Type 0 where
  created queued processing sent delivered read failed retrying cancelled : NotificationStatus

pub data NotificationChannel : Type 0 where
  sms whatsapp email : NotificationChannel

unfoldable pub channel_value : NotificationChannel → String
channel_value sms = "sms"
channel_value whatsapp = "whatsapp"
channel_value email = "email"

pub data EventProcessingStatus : Type 0 where
  pending processing completed failed skipped dlq : EventProcessingStatus

pub data EventStatus : Type 0 where
  received processing processed invalid failed dlq : EventStatus

pub data AttemptStatus : Type 0 where
  pending in_progress success failed timed_out : AttemptStatus

pub data ApiRequestStatus : Type 0 where
  pending success failed timed_out : ApiRequestStatus
