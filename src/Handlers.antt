-- ===== src/Handlers.antt =====
-- Handlers of app/events/handlers.
pub mod SendSms
pub mod Messages
pub mod Auth
pub mod Payment
pub mod PaymentRefunded
pub mod Gifts
pub mod Calls
pub mod Services
pub mod Refunds
pub mod Bookings
pub mod LinkPaid
pub mod Cancellation
pub mod Cancelled
pub mod PendingBooking
pub mod Default
