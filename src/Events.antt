-- ===== src/Events.antt =====
-- app/events: from a message of the queue to the handlers.
pub mod Envelope
pub mod Handler
pub mod Registry
pub mod Idempotency
pub mod Router
pub mod Processor
pub mod Consumer
