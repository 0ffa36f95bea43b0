-- ===== src/Lifecycle.antt =====
-- The life of a load across the services: the transition diagram of its status, and what every
-- operation keeps of a load.
pub mod Diagram
pub mod Sourcing
pub mod Closing
pub mod Reevaluating
pub mod Dispatching
pub mod Stops
pub mod Monitoring
pub mod Booking
pub mod Invoicing
