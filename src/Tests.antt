-- ===== src/Tests.antt =====
-- Theorems at concrete inputs, and the data that they are tried on.
mod Fixtures
mod Rooms
mod Limits
mod Polls
mod Posts
mod Streams
mod Arrivals
mod Ciphers
mod Restarts
mod Threads
mod Waits
mod Web
