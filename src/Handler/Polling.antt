-- ===== src/Handler/Polling.antt =====
-- Votes and elections, as agents ask for them.
use clawdchat.Base.{
  ℕ, String, Bool, false, not, Option, none, some, List, contains, length, ltb, leb, if◌then◌else◌,
}
use clawdchat.Map.{get, contains_key}
use clawdchat.Core.Errors.{
  ErrorCode, invalid_payload, not_in_room, internal_error, vote_not_found, access_denied,
  invalid_option, vote_closed, already_voted,
}
use clawdchat.Core.Commands.{CreateVotePayload, CastVotePayload}
use clawdchat.Core.Votes.{VoteInfo, open_vote}
use clawdchat.Core.Protocol.{
  Frame, vote_created, election_started, vote_body, vote_cast_body, election_body, opened_body,
  room_id_body, event, ok_frame, error_frame,
}
use clawdchat.Broker.{is_agent_in_room, get_room_members, broadcast_to_room_all, is_empty}
use clawdchat.Store.Schema.{Result, ok, err, StoreError, VoteMeta}
use clawdchat.Store.Ballots as Rows
use clawdchat.Voting.Polls.{Polls, ActiveVote, Outcome, done, failed, deadline}
use clawdchat.Voting.Polls as Open
use clawdchat.Voting.Elections.{start_election, decline_election}
use clawdchat.Handler.{World, Request, flat}

unfoldable pub info_of : ActiveVote → ℕ → VoteInfo
info_of v votes_cast = record {
  vote_id = v.vote_id;
  room_id = v.room_id;
  title = v.title;
  description = v.description;
  options = v.options;
  created_by = v.created_by;
  created_at = v.created_at;
  closes_at = v.closes_at;
  status = open_vote;
  votes_cast = votes_cast;
  eligible_voters = v.eligible_voters;
  tally = none;
}

-- The open vote in memory; it is announced to the room.
open_vote_in : World → Request → CreateVotePayload → World × Frame
unfolding info_of
open_vote_in w r p =
    let (votes, v) =
      Open.create_vote w.votes r.now r.fresh p.room_id p.title p.description p.options r.agent_id
        p.duration_secs (get_room_members w.broker p.room_id)
        (contains_key w.ephemeral_rooms p.room_id) in
    (
      record w {
        votes = votes;
        broker =
            broadcast_to_room_all w.broker p.room_id (event vote_created (vote_body (info_of v 0)));
      },
      ok_frame r.req_id (vote_body (info_of v 0)),
    )

unfoldable pub handle_create_vote : World → Request → Option CreateVotePayload → World × Frame
unfolding open_vote_in
handle_create_vote w r none = (w, error_frame r.req_id invalid_payload)
handle_create_vote w r (some p) =
    let (s, stored) =
      Rows.create_vote w.store r.now r.fresh p.room_id p.title p.description p.options r.agent_id
        (deadline r.now p.duration_secs) (get_room_members w.broker p.room_id) in
    if not (is_agent_in_room w.broker r.agent_id p.room_id)
    then (w, error_frame r.req_id not_in_room)
    else if ltb (length p.options) 2
    then (w, error_frame r.req_id invalid_payload)
    else if contains_key w.ephemeral_rooms p.room_id
    then open_vote_in w r p
    else elim stored [
      | err e ↦ (record w { store = s }, error_frame r.req_id internal_error)
      | ok _ ↦ open_vote_in (record w { store = s }) r p
    ]

-- What is known of a vote before a ballot: whether it is kept in memory only, how many options it
-- has, its room, and whether the agent may vote.
pub record Standing : Type 0 where
  pub is_ephemeral : Bool
  pub option_count : Option ℕ
  pub room_id : Option String
  pub eligible : Bool

abbrev pub room_of : Option VoteMeta → Option String
room_of none = none
room_of (some meta) = some meta.room_id

listed : Result (List String) → String → Bool
listed (ok agents) a = contains agents a
listed (err e) a = false

unfoldable pub look_up : World → String → String → Standing
unfolding listed
look_up w vote_id agent_id = elim (get w.votes.active_votes vote_id) [
  | some v ↦ record {
    is_ephemeral = v.is_ephemeral;
    option_count = some (length v.options);
    room_id = some v.room_id;
    eligible = contains v.eligible_agents agent_id;
  }
  | none ↦ record {
    is_ephemeral = false;
    option_count = none;
    room_id = room_of (flat (Rows.get_vote_meta w.store vote_id));
    eligible = listed (Rows.get_vote_eligible_agents w.store vote_id) agent_id;
  }
]

abbrev pub past_options : Option ℕ → ℕ → Bool
past_options none i = false
past_options (some count) i = leb count i

refusal_code : StoreError → ErrorCode
refusal_code StoreError.vote_not_found = vote_not_found
refusal_code StoreError.vote_closed = vote_closed
refusal_code StoreError.already_voted = already_voted
refusal_code _ = internal_error

-- The ballot in memory, which may close the vote.
count_ballot : World → Request → CastVotePayload → World × Frame
count_ballot w r p =
    let (polls, outcome) =
      Open.cast_vote (record { manager = w.votes; broker = w.broker; store = w.store }) p.vote_id
        r.agent_id r.agent_name p.option_index in
    let w' = record w { votes = polls.manager; broker = polls.broker; store = polls.store } in
    elim outcome [
      | done counts ↦ (w', ok_frame r.req_id (vote_cast_body p.vote_id counts.0 counts.1))
      | failed code ↦ (w', error_frame r.req_id code)
    ]

cast_in : World → Request → CastVotePayload → Standing → String → World × Frame
unfolding refusal_code count_ballot
cast_in w r p v room_id =
    let (s, stored) = Rows.cast_vote w.store p.vote_id r.agent_id r.agent_name p.option_index in
    if not (is_agent_in_room w.broker r.agent_id room_id)
    then (w, error_frame r.req_id not_in_room)
    else if not v.eligible
    then (w, error_frame r.req_id access_denied)
    else if past_options v.option_count p.option_index
    then (w, error_frame r.req_id invalid_option)
    else if v.is_ephemeral
    then count_ballot w r p
    else elim stored [
      | err e ↦ (record w { store = s }, error_frame r.req_id (refusal_code e))
      | ok _ ↦ count_ballot (record w { store = s }) r p
    ]

unfoldable pub handle_cast_vote : World → Request → Option CastVotePayload → World × Frame
unfolding cast_in
handle_cast_vote w r none = (w, error_frame r.req_id invalid_payload)
handle_cast_vote w r (some p) =
    let v = look_up w p.vote_id r.agent_id in
    elim v.room_id [
      | none ↦ (w, error_frame r.req_id vote_not_found)
      | some room_id ↦ cast_in w r p v room_id
    ]

-- The task of the election that this starts is `conclude_election`, two seconds later.
unfoldable pub handle_elect_leader : World → Request → Option String → World × Frame
handle_elect_leader w r none = (w, error_frame r.req_id invalid_payload)
handle_elect_leader w r (some room_id) =
    let candidates = get_room_members w.broker room_id in
    let (votes, outcome) = start_election w.votes room_id candidates r.agent_id in
    if not (is_agent_in_room w.broker r.agent_id room_id)
    then (w, error_frame r.req_id not_in_room)
    else if is_empty candidates
    then (w, error_frame r.req_id invalid_payload)
    else elim outcome [
      | failed code ↦ (record w { votes = votes }, error_frame r.req_id code)
      | done _ ↦ (
        record w {
          votes = votes;
          broker =
              broadcast_to_room_all w.broker room_id
                (event election_started (election_body room_id candidates r.agent_id));
        },
        ok_frame r.req_id (opened_body room_id candidates),
      )
    ]

unfoldable pub handle_decline_election : World → Request → Option String → World × Frame
handle_decline_election w r none = (w, error_frame r.req_id invalid_payload)
handle_decline_election w r (some room_id) =
    let (votes, outcome) = decline_election w.votes room_id r.agent_id in
    if not (is_agent_in_room w.broker r.agent_id room_id)
    then (w, error_frame r.req_id not_in_room)
    else elim outcome [
      | failed code ↦ (record w { votes = votes }, error_frame r.req_id code)
      | done _ ↦ (record w { votes = votes }, ok_frame r.req_id (room_id_body room_id))
    ]
