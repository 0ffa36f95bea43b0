-- ===== src/Billing.antt =====
-- The money side: what a customer is charged and what a carrier is paid.
pub mod Charges
pub mod Doubles
pub mod Invoices
pub mod CarrierPay
pub mod Payouts
