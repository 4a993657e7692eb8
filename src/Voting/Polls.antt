-- ===== src/Voting/Polls.antt =====
-- Votes that are open: opening one, casting a ballot, and closing.
use clawdchat.Base.{
  ℕ, ◌+◌, ◌*◌, String, Bool, not, Option, none, some, List, [], ◌∷◌, ◌++◌, any, same, length,
  contains, leb, map, if◌then◌else◌,
}
use clawdchat.Map.{Map, empty, get, insert, remove}
use clawdchat.Core.Errors.{ErrorCode, vote_not_found, invalid_option, access_denied, already_voted}
use clawdchat.Core.Votes.{VoteResultPayload}
use clawdchat.Core.Protocol.{vote_result, event, vote_result_body}
use clawdchat.Broker.{Broker, broadcast_to_room_all}
use clawdchat.Store.Schema.{Store}
use clawdchat.Store.Ballots.{close_vote}
use clawdchat.Voting.Tally.{Ballot, build_vote_tally}

pub record ActiveVote : Type 0 where
  pub vote_id : String
  pub room_id : String
  pub title : String
  pub description : Option String
  pub options : List String
  pub created_by : String
  pub created_at : ℕ
  pub closes_at : Option ℕ
  pub ballots : List Ballot
  pub eligible_voters : ℕ
  pub eligible_agents : List String
  pub is_ephemeral : Bool

pub record ActiveElection : Type 0 where
  pub room_id : String
  pub candidates : List String
  pub declined : List String
  pub started_by : String

pub record VoteManager : Type 0 where
  pub active_votes : Map ActiveVote
  pub active_elections : Map ActiveElection
  pub room_leaders : Map String

unfoldable pub new_manager : VoteManager
new_manager = record { active_votes = empty; active_elections = empty; room_leaders = empty }

-- The manager with the broker and the store that its functions are given.
pub record Polls : Type 0 where
  pub manager : VoteManager
  pub broker : Broker
  pub store : Store

pub data Outcome {ℓ} (A : Type ℓ) : Type ℓ where
  done : A → Outcome A
  failed : ErrorCode → Outcome A

unfoldable pub with_votes : VoteManager → Map ActiveVote → VoteManager
with_votes m votes = record m { active_votes = votes }

unfoldable pub result_of : ActiveVote → VoteResultPayload
result_of v = record {
  vote_id = v.vote_id;
  room_id = v.room_id;
  title = v.title;
  options = v.options;
  tally = build_vote_tally v.options v.ballots;
  ballots =
      map (λ (b : Ballot). record { agent_id = b.0; agent_name = b.1; option_index = b.2 })
        v.ballots;
  total_votes = length v.ballots;
  eligible_voters = v.eligible_voters;
}

unfoldable pub close_and_broadcast_vote : ActiveVote → Broker → Store → Broker × Store
close_and_broadcast_vote v b s = (
  broadcast_to_room_all b v.room_id (event vote_result (vote_result_body (result_of v))),
  if v.is_ephemeral then s else (close_vote s v.vote_id).0,
)

-- Take the vote out of the open ones, close it and tell the room. This is also all that the timer of
-- `schedule_deadline` does, if the vote is still open when it fires.
unfoldable pub finish : Polls → String → Polls
finish p vote_id = elim (get p.manager.active_votes vote_id) [
  | none ↦ p
  | some v ↦
      let (b, s) = close_and_broadcast_vote v p.broker p.store in
      record {
        manager = with_votes p.manager (remove p.manager.active_votes vote_id);
        broker = b;
        store = s;
      }
]

abbrev pub deadline : ℕ → Option ℕ → Option ℕ
deadline now none = none
deadline now (some secs) = some (now + secs * 1000)

-- The timer that this starts is a call of `finish` at a later time.
unfoldable pub create_vote :
    VoteManager
    → ℕ
    → String
    → String
    → String
    → Option String
    → List String
    → String
    → Option ℕ
    → List String
    → Bool
    → VoteManager × ActiveVote
create_vote m now vote_id room_id title description options created_by duration_secs eligible_agents
      is_ephemeral =
    let v : ActiveVote = record {
      vote_id = vote_id;
      room_id = room_id;
      title = title;
      description = description;
      options = options;
      created_by = created_by;
      created_at = now;
      closes_at = deadline now duration_secs;
      ballots = [];
      eligible_voters = length eligible_agents;
      eligible_agents = eligible_agents;
      is_ephemeral = is_ephemeral;
    } in
    (with_votes m (insert m.active_votes vote_id v), v)

abbrev pub has_voted : List Ballot → String → Bool
has_voted ballots agent_id = any (λ (b : Ballot). same b.0 agent_id) ballots

-- Record a ballot; the one that makes the electorate complete closes the vote.
unfoldable pub cast_vote : Polls → String → String → String → ℕ → Polls × Outcome (ℕ × ℕ)
cast_vote p vote_id agent_id agent_name option_index = elim (get p.manager.active_votes vote_id) [
  | none ↦ (p, failed vote_not_found)
  | some v ↦
      if leb (length v.options) option_index
      then (p, failed invalid_option)
      else if not (contains v.eligible_agents agent_id)
      then (p, failed access_denied)
      else if has_voted v.ballots agent_id
      then (p, failed already_voted)
      else let w = record v { ballots = v.ballots ++ (agent_id, agent_name, option_index) ∷ [] } in
        let q = record p {
          manager = with_votes p.manager (insert p.manager.active_votes vote_id w);
        } in
        (
          if leb w.eligible_voters (length w.ballots) then finish q vote_id else q,
          done (length w.ballots, w.eligible_voters),
        )
]
