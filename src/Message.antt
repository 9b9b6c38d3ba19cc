-- ===== src/Message.antt =====
-- The messages of a chat: internal/domain/message and internal/application/message.
pub mod Types
pub mod Methods
pub mod Invariant
pub mod Deleted
pub mod Commands
pub mod UseCases
pub mod Sessions
pub mod Reaching
mod Examples
