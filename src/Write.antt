-- ===== src/Write.antt =====
-- Submitting the creation, change and deletion of a route: internal/services/route_write_service.go,
-- route_write_approval.go and route_write_validation.go, with the policies that a route carries.
pub mod Security
pub mod Policies
pub mod Tables
pub mod Checks
pub mod Submit
pub mod Create
pub mod Dropped
pub mod Laws
pub mod Requested
pub mod Submitted
pub mod Settled
pub mod Undeployed
pub mod Blocked
pub mod Samples
mod Tests
