-- ===== src/Core.antt =====
-- crates/clawchat-core: the values that clients and server exchange.
pub mod Json
pub mod Errors
pub mod Models
pub mod Votes
pub mod Commands
pub mod Protocol
pub mod Crypto
