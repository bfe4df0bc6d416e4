-- ===== src/Provider.antt =====
-- internal/provider: between the changes that ExternalDNS plans and the records of the router.
pub mod Endpoints
pub mod Adjust
pub mod CancelOut
pub mod Tracker
pub mod Runs
pub mod Examples
