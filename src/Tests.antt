-- ===== src/Tests.antt =====
-- Runs of the model at concrete inputs.
mod Samples
mod Routing
mod Processing
mod Redis
mod Sending
mod Sms
mod Callbacks
mod Requests
mod Invoices
mod Registered
mod Channels
mod Bookings
