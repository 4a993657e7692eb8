-- ===== src/Connection.antt =====
-- crates/clawchat-server/src/server.rs: how a connection is registered. A frame that is no
-- registration, and the tasks that send and that keep the connection alive, are not modelled. What
-- other connections do between the steps of a registration is not modelled either.
pub mod Identity
pub mod TakeOver
pub mod Quiet
use clawdchat.Base.{
  ℕ, String, Bool, true, false, ◌&&◌, ◌||◌, not, Option, none, some, List, [], ◌∷◌, length, same,
  other, leb, or_else, adjoin, if◌then◌else◌,
}
use clawdchat.Map.{get, insert, update}
use clawdchat.Core.Commands.{RegisterPayload}
use clawdchat.Core.Errors.{
  ErrorCode, unsupported_protocol, unauthorized, rate_limit_agents, agent_id_taken, internal_error,
}
use clawdchat.Core.Models.{AgentInfo}
use clawdchat.Core.Protocol.{
  Frame, agent_joined, registered_body, rejoined_body, event, ok_frame, protocol_version,
  min_supported_protocol,
}
use clawdchat.Broker.{
  Broker, AgentConnection, new_connection, create_agent_channel, join_room, broadcast_to_room,
}
use clawdchat.RateLimit.{check_agent_limit, add_agent}
use clawdchat.Reconnect.{ReconnectManager, StashedAgent, Reclaimed, is_stashed, reclaim}
use clawdchat.Store.Schema.{Store, Result, ok, err, unwrap_or}
use clawdchat.Store.Rooms.{validate_api_key}
use clawdchat.Store.Identities.{claim_agent_identity, record_session_start}
use clawdchat.Handler.{World, limits_of, is_empty_text}
use clawdchat.Handler.Departure.{Server, Session}

-- The server's own key, and whether it asks for keys.
pub record Config : Type 0 where
  pub api_key : String
  pub no_auth : Bool

-- The clocks and the fresh ids that a registration reads.
pub record Arrival : Type 0 where
  pub req_id : Option String
  pub now : ℕ
  pub instant : ℕ
  pub fresh_agent : String
  pub fresh_session : String

-- An agent that comes in new, comes back to the rooms it lost, or takes over the rooms of a
-- connection that still lives; or its id is taken.
pub data Welcome : Type 0 where
  fresh taken : Welcome
  rejoins : StashedAgent → Welcome
  takes_over : List String → Welcome

-- A registration that is rejected leaves the connection open for another.
pub data Registered : Type 0 where
  rejected closed : ErrorCode → Registered
  admitted : Session → List Frame → Registered

abbrev pub is_supported : ℕ → Bool
is_supported version = leb min_supported_protocol version && leb version protocol_version

unfoldable pub authenticated : Config → Store → String → Bool
authenticated c s key =
    c.no_auth || (same key c.api_key || unwrap_or (validate_api_key s key) false)

-- The number of agents is limited for keys that are not empty.
unfoldable pub check_agents : World → Config → ℕ → String → World × Bool
check_agents w c instant key =
    let (limiter, fits) = check_agent_limit w.limiter instant key (limits_of w.store key) in
    if c.no_auth || is_empty_text key then (w, true) else (record w { limiter = limiter }, fits)

-- An id that the agent asks for is claimed for its key.
unfoldable pub claim : Store → Bool → Option String → String → Store × Result Bool
claim s no_auth none key = (s, ok true)
claim s no_auth (some agent_id) key =
    if no_auth then (s, ok true) else claim_agent_identity s agent_id key

abbrev pub of_reclaimed : Reclaimed → Welcome
of_reclaimed (Reclaimed.reclaimed none) = fresh
of_reclaimed (Reclaimed.reclaimed (some st)) = rejoins st
of_reclaimed (Reclaimed.refused e) = taken

abbrev pub of_existing : Option AgentConnection → Bool → Bool → String → Welcome
of_existing none reconnect no_auth key = fresh
of_existing (some c) reconnect no_auth key =
    if not reconnect || not no_auth && other c.api_key key then taken else takes_over c.rooms

unfoldable pub welcome : Server → ℕ → String → String → Bool → Bool → ReconnectManager × Welcome
welcome s instant agent_id key reconnect no_auth =
    let (stashes, result) = reclaim s.stashes instant agent_id key no_auth in
    if reconnect && is_stashed s.stashes agent_id
    then (stashes, of_reclaimed result)
    else (s.stashes, of_existing (get s.world.broker.agents agent_id) reconnect no_auth key)

unfoldable pub rejoin : Broker → String → String → List String → Broker
rejoin b agent_id name [] = b
rejoin b agent_id name (room_id ∷ rest) =
    let joined = (join_room b agent_id room_id).0 in
    let listed = record joined {
      agents =
          update joined.agents agent_id
            (λ (c : AgentConnection). record c { rooms = adjoin c.rooms room_id });
    } in
    rejoin
      (broadcast_to_room listed room_id agent_id
        (event agent_joined (rejoined_body room_id agent_id name)))
      agent_id name rest

unfoldable pub join_each : Broker → String → List String → Broker
join_each b agent_id [] = b
join_each b agent_id (room_id ∷ rest) = join_each (join_room b agent_id room_id).0 agent_id rest

-- The rooms of a connection that is taken over are joined again, which nobody is told.
unfoldable pub restore : Broker → String → String → Welcome → Broker
unfolding rejoin join_each
restore b agent_id name (rejoins st) = rejoin b agent_id name st.rooms
restore b agent_id name (takes_over rooms) =
    let joined = join_each b agent_id rooms in
    record joined {
      agents = update joined.agents agent_id (λ (c : AgentConnection). record c { rooms = rooms });
    }
restore b agent_id name fresh = b
restore b agent_id name taken = b

abbrev pub missed : Welcome → List Frame
missed (rejoins st) = st.missed_messages
missed _ = []

abbrev pub regained : Welcome → Option (List String × ℕ)
regained (rejoins st) = some (st.rooms, length st.missed_messages)
regained _ = none

unfoldable pub info_of : Arrival → String → RegisterPayload → AgentInfo
info_of a agent_id p = record {
  agent_id = agent_id;
  name = p.name;
  capabilities = p.capabilities;
  connected_at = some a.now;
  last_active = some a.now;
  status = some "idle";
  status_detail = none;
  progress = none;
}

-- The reply, the count, the record of the session, and the entry in the registry.
unfoldable pub admit : Server → Arrival → RegisterPayload → String → Welcome → Server × Registered
unfolding restore info_of
admit s a p agent_id w =
    let limiter =
      if is_empty_text p.key then s.world.limiter else add_agent s.world.limiter a.instant p.key in
    let store =
      (record_session_start s.world.store a.now a.fresh_session agent_id p.name p.capabilities).0 in
    let conn = new_connection (info_of a agent_id p) a.fresh_session create_agent_channel p.key in
    let entered = record s.world.broker { agents = insert s.world.broker.agents agent_id conn } in
    (
      record s {
        world = record s.world {
          limiter = limiter;
          store = store;
          broker = restore entered agent_id p.name w;
        };
      },
      admitted
          (record {
            agent_id = agent_id;
            agent_name = p.name;
            api_key = p.key;
            session_id = a.fresh_session;
          })
          (ok_frame a.req_id (registered_body agent_id p.name protocol_version (regained w))
            ∷ missed w),
    )

unfoldable pub admit_welcomed :
    Server → Arrival → RegisterPayload → String → ReconnectManager × Welcome → Server × Registered
unfolding admit
admit_welcomed s a p agent_id (stashes, taken) =
    (record s { stashes = stashes }, rejected agent_id_taken)
admit_welcomed s a p agent_id (stashes, fresh) =
    admit (record s { stashes = stashes }) a p agent_id fresh
admit_welcomed s a p agent_id (stashes, rejoins st) =
    admit (record s { stashes = stashes }) a p agent_id (rejoins st)
admit_welcomed s a p agent_id (stashes, takes_over rooms) =
    admit (record s { stashes = stashes }) a p agent_id (takes_over rooms)

unfoldable pub with_store : Server → Store → Server
with_store s store = record s { world = record s.world { store = store } }

unfoldable pub admit_claimed :
    Server → Config → Arrival → RegisterPayload → Store × Result Bool → Server × Registered
unfolding admit_welcomed with_store
admit_claimed s c a p (store, err e) = (with_store s store, rejected internal_error)
admit_claimed s c a p (store, ok false) = (with_store s store, rejected agent_id_taken)
admit_claimed s c a p (store, ok true) =
    let agent_id = or_else p.agent_id a.fresh_agent in
    let s' = with_store s store in
    admit_welcomed s' a p agent_id (welcome s' a.instant agent_id p.key p.reconnect c.no_auth)

unfoldable pub register : Server → Config → Arrival → RegisterPayload → Server × Registered
unfolding admit_claimed
register s c a p =
    let (w, fits) = check_agents s.world c a.instant p.key in
    if not (is_supported (or_else p.protocol_version 1))
    then (s, closed unsupported_protocol)
    else if not (authenticated c s.world.store p.key)
    then (s, closed unauthorized)
    else if not fits
    then (record s { world = w }, closed rate_limit_agents)
    else admit_claimed (record s { world = w }) c a p (claim w.store c.no_auth p.agent_id p.key)
