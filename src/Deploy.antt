-- ===== src/Deploy.antt =====
-- Deploying a route to its cluster (internal/services/route_deploy_service.go).
pub mod Model
pub mod Steps
pub mod Service
pub mod Names
pub mod Extracted
pub mod Stale
pub mod Cleaned
pub mod Clients
pub mod Spared
pub mod Removed
pub mod Required
pub mod Laws
pub mod Finished
pub mod Deployed
pub mod FastDelete
pub mod FastCreate
mod Tests
mod ClientTests
