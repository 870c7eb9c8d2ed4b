-- ===== src/Attach.antt =====
-- Attaching clients to routes (internal/services/clients/client_attachment_service.go,
-- client_cascade.go, internal/models/client_attachment.go).
pub mod Model
pub mod Checks
pub mod Service
pub mod Ending
pub mod Cascade
pub mod Laws
pub mod Queued
pub mod Settled
pub mod Turns
pub mod Attached
pub mod Configured
pub mod Fanned
pub mod FastAttach
pub mod Samples
mod Tests
