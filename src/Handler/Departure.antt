-- ===== src/Handler/Departure.antt =====
-- crates/clawchat-server/src/server.rs: what is cleaned up when a connection ends.
use clawdchat.Base.{
  ℕ, String, Bool, false, ◌&&◌, not, Option, none, some, List, [], ◌∷◌, any, same, other,
  if◌then◌else◌,
}
use clawdchat.Map.{get, remove, contains_key}
use clawdchat.Core.Protocol.{Frame, agent_left, left_body, event}
use clawdchat.Broker.{AgentConnection, LeaveOutcome, leave_all_rooms, broadcast_to_room_all}
use clawdchat.RateLimit.{remove_agent}
use clawdchat.Reconnect.{ReconnectManager, stash, buffer_message, stashed_members_of_room}
use clawdchat.Store.Identities.{record_session_end}
use clawdchat.Voting.Elections.{clear_leader_if_agent}
use clawdchat.Handler.{World, is_empty_text, broadcast_turn_changed}
use clawdchat.Handler.Rooms.{destroy_if_empty}

-- The handlers' state and the stashes.
pub record Server : Type 0 where
  pub world : World
  pub stashes : ReconnectManager

-- The connection that ends.
pub record Session : Type 0 where
  pub agent_id : String
  pub agent_name : String
  pub api_key : String
  pub session_id : String

buffer_for : ReconnectManager → List String → String → Frame → ReconnectManager
buffer_for m [] a f = m
buffer_for m (x ∷ rest) a f = buffer_for (if other x a then buffer_message m x f else m) rest a f

-- One room that the agent left.
unfoldable pub after_leaving : Server → Bool → String → String → LeaveOutcome → Server
unfolding buffer_for
after_leaving s no_auth agent_id room_id outcome =
    let f = event agent_left (left_body room_id agent_id) in
    let told = broadcast_to_room_all s.world.broker room_id f in
    let turned =
      if outcome.holder_changed && not outcome.now_empty
      then broadcast_turn_changed told room_id "disconnected"
      else told in
    record {
      world =
          destroy_if_empty (record s.world { broker = turned }) no_auth room_id outcome.now_empty;
      stashes = buffer_for s.stashes (stashed_members_of_room s.stashes room_id) agent_id f;
    }

unfoldable pub after_each : Server → Bool → String → List (String × LeaveOutcome) → Server
after_each s no_auth agent_id [] = s
after_each s no_auth agent_id ((room_id, outcome) ∷ rest) =
    after_each (after_leaving s no_auth agent_id room_id outcome) no_auth agent_id rest

-- A newer connection with the agent's id has another session.
unfoldable pub still_mine : Option AgentConnection → String → Bool
still_mine none session_id = false
still_mine (some c) session_id = same c.session_id session_id

abbrev pub rooms_in : Option AgentConnection → List String
rooms_in none = []
rooms_in (some c) = c.rooms

-- An agent is kept for reconnecting if it was in a room that is not in memory only.
unfoldable pub stash_agent : Server → ℕ → Session → Server
stash_agent s instant c =
    let rooms = rooms_in (get s.world.broker.agents c.agent_id) in
    if any (λ room_id. not (contains_key s.world.ephemeral_rooms room_id)) rooms
    then record s { stashes = stash s.stashes instant c.agent_id c.agent_name c.api_key rooms }
    else s

-- The agent leaves its rooms, its leaderships and the registry.
unfoldable pub tear_down : Server → Bool → String → Server
unfolding after_each
tear_down s no_auth agent_id =
    let (b, left) = leave_all_rooms s.world.broker agent_id in
    let s' =
      after_each (record s { world = record s.world { broker = b } }) no_auth agent_id left in
    let (votes, b') = clear_leader_if_agent s'.world.votes s'.world.broker agent_id in
    record s' {
      world = record s'.world {
        votes = votes;
        broker = record b' { agents = remove b'.agents agent_id };
      };
    }

unfoldable pub uncount : World → String → World
uncount w api_key = record w {
  limiter = if is_empty_text api_key then w.limiter else remove_agent w.limiter api_key;
}

unfoldable pub end_session : Server → ℕ → String → Server
end_session s now session_id = record s {
  world = record s.world { store = record_session_end s.world.store now session_id };
}

unfoldable pub disconnect : Server → Bool → ℕ → ℕ → Session → Server
unfolding uncount end_session
disconnect s no_auth now instant c =
    let s' = record s { world = uncount s.world c.api_key } in
    if still_mine (get s.world.broker.agents c.agent_id) c.session_id
    then end_session (tear_down (stash_agent s' instant c) no_auth c.agent_id) now c.session_id
    else end_session s' now c.session_id
