-- ===== src/UseCase.antt =====
-- The use cases of internal/application/chat: a command is validated, the chat is loaded, one of its
-- methods is called, and the chat is saved.
pub mod Commands
pub mod Execute
pub mod Carrying
pub mod Create
pub mod Creating
pub mod Close
pub mod Dispatch
pub mod Dispatching
pub mod Examples
