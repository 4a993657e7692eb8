-- ===== src/Tests/Arrivals.antt =====
-- Registrations.
use clawdchat.Base.{
  ℕ, ◌≡◌, ◌≢◌, refl, String, true, false, Option, none, some, List, [], ◌∷◌, Bool, differ,
}
use clawdchat.Map.{get, empty, insert}
use clawdchat.Core.Commands.{RegisterPayload}
use clawdchat.Broker.{Broker, AgentConnection, new_broker}
use clawdchat.Reconnect.{new_manager}
use clawdchat.Handler.Departure.{Server, Session, disconnect}
use clawdchat.Connection.{Config, Arrival, register, takes_over, restore}
use clawdchat.Connection.Identity.{is_admitted, register-owner}
use clawdchat.Connection.TakeOver.{session_in, register-disconnect}
use clawdchat.Connection.Quiet.{SameSeats, restore_taken}
use clawdchat.Tests.Fixtures.{connection}
use clawdchat.Tests.Posts.{world}

abbrev seated : Broker
seated = record new_broker {
  agents = insert empty "ann" (record (connection "k1") { rooms = "lobby" ∷ [] });
  room_members = insert empty "lobby" ("ann" ∷ "bob" ∷ []);
  turn_holders = insert empty "lobby" "bob";
}

abbrev server : Server
server = record { world = record world { broker = seated }; stashes = new_manager }

abbrev config : Config
config = record { api_key = "k1"; no_auth = false }

abbrev arrival : Arrival
arrival = record { req_id = none; now = 5; instant = 5; fresh_agent = "a9"; fresh_session = "s2" }

abbrev again : RegisterPayload
again = record {
  key = "k1";
  agent_id = some "ann";
  name = "Ann";
  capabilities = [];
  reconnect = true;
  protocol_version = none;
}

abbrev session_named : String → Session
session_named id = record { agent_id = "ann"; agent_name = "Ann"; api_key = "k1"; session_id = id }

let_in :
    (session_in (register server config arrival again).1 ≡ some (session_named "s2"))
    × (is_admitted (register server config arrival again).1 ≡ true)
unfolding register clawdchat.Connection.authenticated clawdchat.Base.dec_eq
    clawdchat.Connection.check_agents clawdchat.RateLimit.check_agent_limit get
    clawdchat.RateLimit.new_limiter empty clawdchat.Handler.limits_of clawdchat.RateLimit.for_tier
    clawdchat.Store.Rooms.get_key_tier clawdchat.RateLimit.free clawdchat.Connection.claim
    clawdchat.Store.Identities.claim_agent_identity clawdchat.Connection.welcome
    clawdchat.Reconnect.is_stashed clawdchat.Map.contains_key insert clawdchat.Reconnect.reclaim
    clawdchat.Connection.admit_claimed clawdchat.Connection.admit_welcomed
    clawdchat.Connection.admit clawdchat.Connection.with_store new_manager new_broker
let_in = (refl, refl)

register-owner_example :
    (get (register server config arrival again).0.world.store.agent_identities "ann" ≡ some "k1")
    × ((k : String) → get server.world.store.agent_identities "ann" ≡ some k → k ≡ "k1")
register-owner_example = register-owner server config arrival again "ann" refl refl let_in.1

register-disconnect_example :
    ((disconnect
        (register server config arrival again).0
        false
        9
        9
        (session_named "s1")).world.broker
      ≡ (register server config arrival again).0.world.broker)
    × ((disconnect
          (register server config arrival again).0
          false
          9
          9
          (session_named "s1")).world.votes
        ≡ (register server config arrival again).0.world.votes)
    × ((disconnect
          (register server config arrival again).0
          false
          9
          9
          (session_named "s1")).world.ephemeral_rooms
        ≡ (register server config arrival again).0.world.ephemeral_rooms)
    × ((disconnect (register server config arrival again).0 false 9 9 (session_named "s1")).stashes
        ≡ (register server config arrival again).0.stashes)
register-disconnect_example =
    register-disconnect server config arrival again (session_named "s2") (session_named "s1") 9 9
      let_in.0 refl (differ "s1" "s2" refl)

restore_taken_example :
    SameSeats seated (restore seated "ann" "Ann" (takes_over ("lobby" ∷ [])))
    × ((x : String)
        → "ann" ≢ x
        → get (restore seated "ann" "Ann" (takes_over ("lobby" ∷ []))).agents x
          ≡ get seated.agents x)
    × (get (restore seated "ann" "Ann" (takes_over ("lobby" ∷ []))).agents "ann"
        ≡ some (record (connection "k1") { rooms = "lobby" ∷ [] }))
unfolding get insert empty clawdchat.Base.dec_eq clawdchat.Base.contains
    clawdchat.Broker.get_room_members clawdchat.Map.contains_key
restore_taken_example =
    restore_taken seated "ann" "Ann" ("lobby" ∷ [])
      (record (connection "k1") { rooms = "lobby" ∷ [] }) refl ((refl, refl), tt)
