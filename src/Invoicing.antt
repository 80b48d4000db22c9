-- ===== src/Invoicing.antt =====
-- The invoices that the handlers have the accounting service make: app/invoicing.
pub mod Lines
pub mod Booking
pub mod Shop
pub mod Gifts
pub mod Accounting
pub mod Triggers
pub mod Purchases
