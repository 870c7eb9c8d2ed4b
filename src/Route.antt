-- ===== src/Route.antt =====
-- Routes: their status, the table of legal status transitions (internal/routestate), and what a
-- terminal approval does to a route (internal/services/route_approval.go).
pub mod Status
pub mod Table
pub mod Machine
pub mod Completer
pub mod Legal
pub mod Lifecycle
pub mod Moved
pub mod Outcomes
pub mod Endings
mod Tests
