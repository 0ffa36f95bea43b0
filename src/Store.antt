-- ===== src/Store.antt =====
-- The persistent state that the services share, as backend/prisma/schema.prisma declares it, and
-- the transactions in which they change it.
pub mod Statuses
pub mod Rows
pub mod Audit
pub mod Transaction
pub mod Queries
pub mod Outcomes
