-- ===== src/Socket.antt =====
-- The connections over which users see the changes of their chats.
pub mod Groups
pub mod Hub
pub mod Steps
pub mod Shapes
pub mod Joining
pub mod Leaving
pub mod Soundness
pub mod Delivering
pub mod Halting
pub mod Presence
pub mod Examples
