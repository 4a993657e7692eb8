-- ===== src/Handler/Reads.antt =====
-- What agents ask of a room without changing anything.
use clawdchat.Base.{ℕ, String, not, Option, none, some, List, [], ◌∷◌, length, if◌then◌else◌, same}
use clawdchat.Map.{get, contains_key, Map}
use clawdchat.Core.Errors.{invalid_payload, internal_error, vote_not_found}
use clawdchat.Core.Models.{AgentInfo}
use clawdchat.Core.Votes.{VoteInfo, VoteTally, open_vote, closed_vote, VoteStatus}
use clawdchat.Core.Protocol.{
  Frame, room_tip_result, task_list, tip_body, tasks_body, vote_body, ok_frame, error_frame,
  reply_frame,
}
use clawdchat.Broker.{AgentConnection, ephemeral_room_tip}
use clawdchat.Store.Schema.{Store, Result, ok, err, VoteMeta}
use clawdchat.Store.Messages.{room_tip}
use clawdchat.Store.Ballots.{get_vote_meta, get_vote_ballot_count, get_vote_ballots}
use clawdchat.Tasks.{list_tasks}
use clawdchat.Voting.Tally.{build_vote_tally}
use clawdchat.Handler.{World, Request, granted, refused, authorize_room}
use clawdchat.Handler.Polling.{info_of}

-- Go on if the sender may read the room.
unfoldable pub authorized : World → Request → String → Frame → Frame
authorized w r room_id answer =
    elim (authorize_room r.req_id room_id r.api_key r.no_auth w.store w.ephemeral_rooms) [
      | granted room ↦ answer
      | refused f ↦ f
    ]

tip_of : World → Request → String → Frame
tip_of w r room_id =
    if contains_key w.ephemeral_rooms room_id
    then reply_frame r.req_id room_tip_result
        (tip_body room_id (ephemeral_room_tip w.broker room_id))
    else elim (room_tip w.store room_id) [
      | err e ↦ error_frame r.req_id internal_error
      | ok seq ↦ reply_frame r.req_id room_tip_result (tip_body room_id seq)
    ]

unfoldable pub handle_room_tip : World → Request → Option String → Frame
unfolding tip_of
handle_room_tip w r none = error_frame r.req_id invalid_payload
handle_room_tip w r (some room_id) = authorized w r room_id (tip_of w r room_id)

-- The members of a room that are connected, in join order.
unfoldable pub present_members : Map AgentConnection → List String → List AgentInfo
present_members agents [] = []
present_members agents (a ∷ rest) =
    let others = present_members agents rest in
    elim (get agents a) [ none ↦ others | some c ↦ c.info ∷ others ]

unfoldable pub handle_list_tasks : World → Request → Option (String × Option String) → Frame
handle_list_tasks w r none = error_frame r.req_id invalid_payload
handle_list_tasks w r (some (room_id, status)) =
    authorized w r room_id
      (reply_frame r.req_id task_list (tasks_body room_id (list_tasks w.tasks room_id status)))

-- The columns hold `open` and `closed` only, in lower case.
unfoldable pub vote_status_from_str : String → VoteStatus
vote_status_from_str status = if same status "closed" then closed_vote else open_vote

unfoldable pub vote_info_from_meta : VoteMeta → ℕ → Option (List VoteTally) → VoteInfo
vote_info_from_meta meta votes_cast tally = record {
  vote_id = meta.vote_id;
  room_id = meta.room_id;
  title = meta.title;
  description = meta.description;
  options = meta.options;
  created_by = meta.created_by;
  created_at = meta.created_at;
  closes_at = meta.closes_at;
  status = vote_status_from_str meta.status;
  votes_cast = votes_cast;
  eligible_voters = meta.eligible_voters;
  tally = tally;
}

-- The tally is read of a closed vote only.
unfoldable pub load_tally : Store → VoteMeta → Result (Option (List VoteTally))
load_tally s meta =
    if not (same meta.status "closed") then ok none else elim (get_vote_ballots s meta.vote_id) [
      | err e ↦ err e
      | ok ballots ↦ ok (some (build_vote_tally meta.options ballots))
    ]

-- A vote that is not open in memory, from its rows.
stored_status : World → Request → VoteMeta → Frame
unfolding load_tally
stored_status w r meta = elim (get_vote_ballot_count w.store meta.vote_id) [
  | err e ↦ error_frame r.req_id internal_error
  | ok votes_cast ↦ elim (load_tally w.store meta) [
    | err e ↦ error_frame r.req_id internal_error
    | ok tally ↦ ok_frame r.req_id (vote_body (vote_info_from_meta meta votes_cast tally))
  ]
]

unfoldable pub handle_get_vote_status : World → Request → Option String → Frame
unfolding stored_status info_of
handle_get_vote_status w r none = error_frame r.req_id invalid_payload
handle_get_vote_status w r (some vote_id) = elim (get w.votes.active_votes vote_id) [
  | some v ↦ authorized w r v.room_id (ok_frame r.req_id (vote_body (info_of v (length v.ballots))))
  | none ↦ elim (get_vote_meta w.store vote_id) [
    | err e ↦ error_frame r.req_id internal_error
    | ok none ↦ error_frame r.req_id vote_not_found
    | ok (some meta) ↦ authorized w r meta.room_id (stored_status w r meta)
  ]
]
