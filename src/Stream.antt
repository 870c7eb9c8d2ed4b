-- ===== src/Stream.antt =====
-- Which ports a TCP or UDP stream may claim, and which of them its routes may use
-- (internal/services/stream_port_collision.go, internal/models/stream_port.go).
pub mod Model
pub mod Claims
pub mod Names
pub mod Sorting
pub mod Order
mod Labels
pub mod GatewayName
pub mod Accepts
pub mod Accepted
pub mod Kept
pub mod Service
pub mod Served
mod Tests
mod NameTests
mod ServiceTests
