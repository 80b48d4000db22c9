-- ===== src/Domain.antt =====
-- app/notifications/domain: enumerations, table rows and value objects.
pub mod Enums
pub mod Models
pub mod Values
