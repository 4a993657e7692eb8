-- ===== src/Lib.antt =====
-- A model of the clawchat server: agents register over a socket, join rooms, and there send
-- messages, vote, elect leaders and share tasks, while webhooks pass messages on.
--
-- The parts, and the files that model them (paths are from the repository's root):
--   Core: crates/clawchat-core/src/{models,protocol,error}.rs, the data on the wire. JSON is what
--     serde decodes, so a handler takes an optional payload; a frame's random id and the text of an
--     error are left out.
--   Broker: crates/clawchat-server/src/{broker,connection}.rs, who is in which room, the turn
--     token, and the bounded channels of connections. The source has no lock around a call, only one
--     around each access of a table. A function of Broker is a whole call that nothing interrupts;
--     Broker/Threads takes the calls apart into their accesses, Broker/Interleaving runs calls for
--     different rooms at once, and Broker/Races is about calls for one room.
--   RateLimit, Reconnect, Tasks, Voting: rate_limit.rs, reconnect.rs, tasks.rs and voting.rs of the
--     server. Clocks are arguments. What a timer or a spawned task does is a function that takes the
--     state it finds (`finish` for a vote's deadline, `conclude_election`, `sweep`). The random
--     choice of a leader is a parameter that picks one of the texts it is given. Voting/Restore is
--     `VoteManager::new`, which finds the open votes in the store as it was opened.
--   Store: store.rs, its tables as keyed tables and lists. SQLite's constraints, triggers and
--     transactions are written out where a statement relies on them; while the field `available` is
--     false every statement fails, so that no read fails while a write after it succeeds. Times are
--     milliseconds. Store/Startup is what `Store::initialize` does to the votes of an old database.
--   Handler: handler.rs, one function per command over the state `World` that the handlers share,
--     with the sender, the clocks and a fresh id in `Request`; Handler/Dispatch is `handle_frame`,
--     which gives each frame to its handler.
--   Connection and Handler/Departure: `connection_loop` of server.rs, how a connection is registered
--     and how it is cleaned up when it ends.
--   Webhooks: webhooks.rs, which messages a subscription is sent, the queue, the rounds of the
--     worker, and the outcome of an attempt.
--   Web: crates/clawchat-server/src/web.rs, the endpoints of the REST API over the server's state.
--   Core/Crypto: crates/clawchat-core/src/crypto.rs, over the cipher, the key derivation, base64 and
--     UTF-8 of other libraries, which are parameters.
--   Client: crates/clawchat-client/src/connection.rs, the requests of a client and their replies, and
--     `wait_for_message` over the server's answer and the events that come before the deadline.
--   Lantern: crates/clawchat-cli/src/lantern.rs, structured reasoning inside message contents: what a
--     message says as JSON, which messages are well formed, and the threads that a history makes. The
--     parser of JSON, trimming and floating-point numbers are parameters, and a thread's number is
--     natural.
--   Base and Map are shared: tests on numbers and texts, lists, and DashMap as a list of entries.
--   Tests holds concrete inputs.
--
-- How they interact: a handler reads the store and the rooms in memory, changes the broker, the
-- vote manager, the limiter or the tasks, and sends frames through the broker; a message is handed
-- to the webhooks, whose task enqueues deliveries in the store later.
--
-- Integers are natural numbers; the counters of the limiter and of rooms in memory wrap at 2 ^ 64.
-- Functions are by structural recursion on lists, but for two loops on fuel: `backfill` pages through
-- a room's history, for which one round per stored message and one more are enough, and
-- `delivery_worker` runs a given number of rounds of a loop that never ends. The order in which a
-- DashMap is iterated is not fixed by the source; here it is the order of insertion, which for a
-- table of the store is the order of its rows.
--
-- Not modelled: sockets, TLS, HTTP and files; the clients but for Client and Lantern; the calibration
-- of Lantern, which sums logarithms of floating-point numbers; the heartbeat of a connection and
-- what other connections do in the middle of a registration; the schema's migrations; the signatures
-- and the address resolution of webhooks, of which only the outcome is a parameter.
pub mod Base
pub mod Map
pub mod Core
pub mod Handler
pub mod Connection
pub mod Broker
pub mod Client
pub mod RateLimit
pub mod Reconnect
pub mod Store
pub mod Tasks
pub mod Voting
pub mod Tests
pub mod Web
pub mod Webhooks
pub mod Lantern
