-- ===== src/Config.antt =====
-- internal/config: the pricing catalogue.
pub mod Pricing
mod Examples
