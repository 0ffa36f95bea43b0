-- ===== src/Billing/Invoices.antt =====
-- backend/src/modules/billing/services/invoice.service.ts; `create` is in Create.antt.
pub mod Create
pub mod Balance
pub mod Ledger
pub mod Adjusting
pub mod Balanced
pub mod Balancing
pub mod Exclusive
pub mod Send
