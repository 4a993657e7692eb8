-- ===== src/Store.antt =====
-- crates/clawchat-server/src/store.rs: the tables that the SQL statements of the source read and
-- write, under the constraints that its schema declares.
pub mod Schema
pub mod Rooms
pub mod Messages
pub mod Histories
pub mod Listings
pub mod Startup
pub mod Queue
pub mod Identities
pub mod Ballots
pub mod TaskRows
pub mod Deliveries
pub mod Sequence
pub mod Numbering
pub mod Ownership
