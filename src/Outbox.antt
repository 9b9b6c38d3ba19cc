-- ===== src/Outbox.antt =====
-- The outbox and its worker: internal/application/appcore/outbox.go and internal/worker/outbox_worker.go.
pub mod Worker
pub mod Owed
pub mod Draining
pub mod Marks
pub mod Published
mod Examples
