-- ===== src/Store/Funding.antt =====
-- internal/store/billing_layers.go, billing_funding.go and the funding part of `settleBillingTx` in
-- billing.go. An amount is a whole number of 10^-12 USD, the scale of the numeric(30,12) columns; a
-- table is the list of its rows, the cash lots in the order of their sequence numbers.
pub mod Types
pub mod Layers
pub mod Sources
pub mod Settle
