-- ===== src/Tag.antt =====
-- Tags in messages, internal/domain/tag: a message is parsed into tags, each tag is checked and becomes
-- a command or an error, and the commands are executed on the chat.
pub mod Types
pub mod Parser
pub mod Validators
pub mod Processor
pub mod Remaining
pub mod Lines
pub mod Written
pub mod Printing
pub mod Counting
pub mod Executor
pub mod Retrying
pub mod Examples
pub mod Accepted
