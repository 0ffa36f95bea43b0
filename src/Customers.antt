-- ===== src/Customers.antt =====
-- Customers: backend/src/modules/customer.
pub mod Duplicates
pub mod Accounts
pub mod Words
pub mod Unique
