-- ===== src/Providers.antt =====
-- The providers of app/providers.
pub mod Kwtsms
pub mod Factory
