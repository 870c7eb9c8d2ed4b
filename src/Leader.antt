-- ===== src/Leader.antt =====
-- The election of the replica that distributes certificates (internal/leaderlock/leaderlock.go).
pub mod Gate
pub mod Laws
pub mod Exclusive
pub mod Stacked
mod Tests
