-- ===== src/Voting.antt =====
-- crates/clawchat-server/src/voting.rs: votes that are open, elections that run, and the leaders of
-- rooms. What a timer does when it fires is a function of its own.
pub mod Tally
pub mod Polls
pub mod Elections
pub mod Closing
pub mod Turnout
pub mod Leaders
pub mod Restore
pub mod Restarts
pub mod Electorate
pub mod Startup
