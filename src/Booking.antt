-- ===== src/Booking.antt =====
-- How a load comes to be: backend/src/modules/quote-load/services/load.service.ts and
-- quote.service.ts, with the rate agreements and the subscription that they ask.
pub mod Entitlement
pub mod RateAgreements
pub mod Creation
pub mod Quotes
