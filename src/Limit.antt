-- ===== src/Limit.antt =====
-- internal/limit: request-rate and concurrency admission inside one process.
pub mod Types
pub mod Limiter
pub mod Reserve
pub mod Daily
pub mod DailyLaws
pub mod Admission
mod Examples
