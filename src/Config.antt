-- ===== src/Config.antt =====
-- A route's configuration and its checks (internal/models/route.go, the validators of
-- internal/services/route_validation.go and route_write_validation.go).
pub mod Model
pub mod Backends
pub mod Matchers
pub mod Shape
pub mod Conflicts
pub mod Accepted
pub mod Targets
pub mod Updated
pub mod Granted
pub mod Warnings
mod Tests
