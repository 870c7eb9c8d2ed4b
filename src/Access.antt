-- ===== src/Access.antt =====
-- Who may do what in a project: internal/models/team.go, internal/middleware/permissions.go and the
-- merging of permissions of internal/repository/team_repository.go.
pub mod Teams
pub mod Checker
pub mod Agree
pub mod Gates
mod Tests
