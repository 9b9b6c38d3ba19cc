-- ===== src/Chat.antt =====
-- The chat aggregate, internal/domain/chat: its data, its events, its methods, and their theorems.
pub mod Types
pub mod Apply
pub mod Methods
pub mod Entity
pub mod Lifecycle
pub mod Steps
pub mod Replay
pub mod Invariant
pub mod Versions
pub mod Idempotence
pub mod Closing
pub mod Examples
