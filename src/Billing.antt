-- ===== src/Billing.antt =====
-- src/billing: what a request costs, in two currencies.
pub mod Decimal
pub mod Rule
pub mod Fx
pub mod Price
pub mod Total
