-- ===== src/Notify.antt =====
-- app/notifications/application and the template renderer: rendering a message, sending it to a
-- provider with retries, and the claim in Redis that keeps it from being sent twice.
pub mod Renderer
pub mod Settings
pub mod Services
pub mod Attempting
pub mod Service
pub mod Resolver
