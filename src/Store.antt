-- ===== src/Store.antt =====
-- Event storage: the interface appcore.EventStore, its in-memory implementation, and the chat
-- repository over it.
pub mod Events
pub mod InMemory
pub mod ReadModel
pub mod Repository
pub mod Histories
pub mod Saving
pub mod RoundTrip
pub mod Sessions
pub mod Following
pub mod Committing
pub mod Interleaving
pub mod Delivery
pub mod Examples
