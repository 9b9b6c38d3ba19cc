-- ===== src/Batcher.antt =====
-- The changes of one user in one chat, told in one message.
pub mod Batches
pub mod Formats
pub mod Told
pub mod Lost
pub mod Conserving
pub mod Examples
