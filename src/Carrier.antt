-- ===== src/Carrier.antt =====
-- Carriers: backend/src/modules/carrier.
pub mod Eligibility
pub mod Limits
pub mod Roster
pub mod Fleet
pub mod Profile
pub mod Reviews
pub mod Registry
pub mod Requests
pub mod Activation
pub mod Newest
pub mod Decision
