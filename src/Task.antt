-- ===== src/Task.antt =====
-- The read model of the tasks, that the events of the chats make.
pub mod Document
pub mod Comparing
pub mod Projector
pub mod Projecting
pub mod Handling
pub mod Skipping
pub mod Statuses
pub mod Examples
