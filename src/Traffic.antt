-- ===== src/Traffic.antt =====
-- Backend traffic policies: their configuration (internal/models/backend_traffic_policy.go), its
-- validation (internal/models/backend_traffic_policy_validation.go) and what a valid one is.
pub mod Checks
pub mod Balance
pub mod Retry
pub mod RateLimit
pub mod Faults
pub mod Health
pub mod Passes
pub mod Valid
mod Tests
