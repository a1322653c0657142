-- ===== src/Billing.antt =====
-- internal/billing/amount.go: exact decimal arithmetic for charges.
pub mod Decimal
pub mod Rounding
pub mod Cost
mod Examples
