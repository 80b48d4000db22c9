-- ===== src/Util.antt =====
-- The helpers of app/common.
pub mod Masking
pub mod Pagination
pub mod Retry
