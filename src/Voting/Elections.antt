-- ===== src/Voting/Elections.antt =====
-- Elections of a room's leader, and who leads.
use clawdchat.Base.{
  String, Bool, not, Option, none, some, List, [], ◌∷◌, contains, adjoin, keep, same, is_some_of,
  if◌then◌else◌,
}
use clawdchat.Map.{get, insert, remove, contains_key, keys_where}
use clawdchat.Core.Errors.{election_in_progress, no_election_active}
use clawdchat.Core.Protocol.{leader_cleared, leader_elected, event, cleared_body, leader_body}
use clawdchat.Broker.{Broker, AgentConnection, broadcast_to_room_all}
use clawdchat.Voting.Polls.{VoteManager, ActiveElection, Outcome, done, failed}

unfoldable pub start_election :
    VoteManager → String → List String → String → VoteManager × Outcome (Unit {0})
start_election m room_id candidates started_by =
    if contains_key m.active_elections room_id then (m, failed election_in_progress) else (
      record m {
        active_elections = insert m.active_elections room_id (record {
          room_id = room_id;
          candidates = candidates;
          declined = [];
          started_by = started_by;
        });
      },
      done tt,
    )

unfoldable pub decline_election : VoteManager → String → String → VoteManager × Outcome (Unit {0})
decline_election m room_id agent_id = elim (get m.active_elections room_id) [
  | none ↦ (m, failed no_election_active)
  | some e ↦ (
    record m {
      active_elections =
          insert m.active_elections room_id (record e { declined = adjoin e.declined agent_id });
    },
    done tt,
  )
]

-- The candidates that have not declined.
unfoldable pub standing : ActiveElection → List String
standing e = keep (λ c. not (contains e.declined c)) e.candidates

-- The name of an agent that is still connected, or else its id.
abbrev pub name_of : Option AgentConnection → String → String
name_of none id = id
name_of (some a) id = a.info.name

unfoldable pub settle :
    (List String → String) → VoteManager → Broker → String → List String → VoteManager × Broker
settle choose m b room_id [] = (
  m,
  broadcast_to_room_all b room_id
      (event leader_cleared (cleared_body room_id "all candidates declined")),
)
settle choose m b room_id (c ∷ rest) =
    let winner = choose (c ∷ rest) in
    (
      record m { room_leaders = insert m.room_leaders room_id winner },
      broadcast_to_room_all b room_id (
          event leader_elected (leader_body room_id winner (name_of (get b.agents winner) winner))),
    )

-- The task that `start_election` spawns, after its two seconds. `choose` stands for the random
-- choice from a list that is not empty.
unfoldable pub conclude_election :
    (List String → String) → VoteManager → Broker → String → VoteManager × Broker
unfolding settle
conclude_election choose m b room_id = elim (get m.active_elections room_id) [
  | none ↦ (m, b)
  | some e ↦
      settle choose (record m { active_elections = remove m.active_elections room_id }) b room_id
        (standing e)
]

unfoldable pub clear_leader : VoteManager → Broker → String → VoteManager × Broker
clear_leader m b room_id =
    if contains_key m.room_leaders room_id
    then (
      record m { room_leaders = remove m.room_leaders room_id },
      broadcast_to_room_all b room_id (event leader_cleared (cleared_body room_id "leader left")),
    )
    else (m, b)

unfoldable pub is_leader : VoteManager → String → String → Bool
is_leader m room_id agent_id = is_some_of (get m.room_leaders room_id) agent_id

unfoldable pub get_leader : VoteManager → String → Option String
get_leader m room_id = get m.room_leaders room_id

unfoldable pub clear_each : VoteManager → Broker → List String → VoteManager × Broker
clear_each m b [] = (m, b)
clear_each m b (r ∷ rs) = let (m', b') = clear_leader m b r in clear_each m' b' rs

unfoldable pub clear_leader_if_agent : VoteManager → Broker → String → VoteManager × Broker
unfolding clear_each
clear_leader_if_agent m b agent_id =
    clear_each m b (keys_where (λ leader. same leader agent_id) m.room_leaders)
