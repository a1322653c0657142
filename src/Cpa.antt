-- ===== src/Cpa.antt =====
-- internal/cpaprotocol: which requests in the providers' own protocols pass.
pub mod Json
pub mod Read
pub mod Gemini
pub mod Responses
pub mod Names
mod Examples
