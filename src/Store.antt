-- ===== src/Store.antt =====
-- The transactions of internal/store that pay for a request.
pub mod Funding
pub mod Guard
pub mod Quota
mod Examples
