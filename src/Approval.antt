-- ===== src/Approval.antt =====
-- Approvals: their data (internal/models/approval.go) and the engine (internal/approval).
pub mod Model
pub mod Ports
pub mod Planning
pub mod Authorize
pub mod Guards
pub mod Traversal
pub mod Authorized
pub mod Stages
pub mod Laws
pub mod Gate
pub mod Planned
pub mod Unchanged
mod Tests
