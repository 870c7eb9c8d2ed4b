-- ===== src/Approval/Gate.antt =====
-- The gate that approvals enforce, as an invariant of the database behind the stores: `Good` says
-- what it is of one approval, `Writes` that each write keeps it, `Operations` that each operation does.
pub mod Good
pub mod Writes
pub mod Opened
pub mod Operations
pub mod Endings
