-- ===== src/Handler/Listings.antt =====
-- What agents ask of the server's lists: histories, rooms, agents and votes.
use clawdchat.Base.{
  ℕ, String, ◌&&◌, ◌||◌, not, Option, none, some, List, [], ◌∷◌, ◌++◌, map, keep, contains, length,
  leb, same, if◌then◌else◌,
}
use clawdchat.Base.Sorting.{take, sort}
use clawdchat.Map.{values}
use clawdchat.Core.Errors.{invalid_payload, internal_error}
use clawdchat.Core.Commands.{GetHistoryPayload}
use clawdchat.Core.Models.{Room, ChatMessage}
use clawdchat.Core.Votes.{VoteInfo}
use clawdchat.Core.Protocol.{
  Frame, history_result, room_list, agent_list, room_info_result, history_body, rooms_body,
  agents_body, info_body, votes_body, ok_frame, error_frame, reply_frame,
}
use clawdchat.Broker.{AgentConnection, get_room_members, turn_holder}
use clawdchat.Store.Schema.{Store, Result, ok, err, unwrap_or, VoteMeta}
use clawdchat.Store.Ballots.{get_vote_ballot_count}
use clawdchat.Store.Histories.{get_history_filtered, get_history}
use clawdchat.Store.Listings.{list_rooms, list_rooms_for_key, list_votes, under}
use clawdchat.Voting.Polls.{ActiveVote}
use clawdchat.Handler.{World, Request, granted, refused, authorize_room, may_read, is_empty_text}
use clawdchat.Handler.Polling.{info_of}
use clawdchat.Handler.Reads.{authorized, present_members, load_tally, vote_info_from_meta}

unfoldable pub history_reply : Request → String → Result (List ChatMessage) → Frame
history_reply r room_id (err e) = error_frame r.req_id internal_error
history_reply r room_id (ok ms) = reply_frame r.req_id history_result (history_body room_id ms)

unfoldable pub handle_get_history : World → Request → Option GetHistoryPayload → Frame
unfolding history_reply
handle_get_history w r none = error_frame r.req_id invalid_payload
handle_get_history w r (some p) = authorized w r p.room_id (
    history_reply r p.room_id
      (get_history_filtered w.store p.room_id p.limit p.before p.since p.since_seq))

abbrev pub last_time : List ChatMessage → Option ℕ
last_time [] = none
last_time (m ∷ []) = some m.timestamp
last_time (m ∷ (n ∷ ms)) = last_time (n ∷ ms)

abbrev pub activity : Option ℕ → Result (List ChatMessage) → Option ℕ
activity before (err e) = before
activity before (ok ms) = last_time ms

-- The number of members, and for a room of the store the time of its latest message.
unfoldable pub enriched : World → Room → Room
enriched w room = record room {
  member_count = some (length (get_room_members w.broker room.room_id));
  last_activity =
      if room.ephemeral
      then room.last_activity
      else activity room.last_activity (get_history w.store room.room_id 1 none);
}

-- The rooms of the store that the sender may see; a sender without a key sees the public ones.
unfoldable pub stored_rooms : World → Request → Option String → Result (List Room)
stored_rooms w r parent_id =
    if r.no_auth
    then list_rooms w.store parent_id
    else list_rooms_for_key w.store (if is_empty_text r.api_key then none else some r.api_key)
        parent_id

unfoldable pub rooms_reply : World → Request → Option String → Result (List Room) → Frame
unfolding enriched
rooms_reply w r parent_id (err e) = error_frame r.req_id internal_error
rooms_reply w r parent_id (ok rooms) =
    let more =
      keep (λ room. under parent_id room && may_read r.api_key r.no_auth room)
        (values w.ephemeral_rooms) in
    reply_frame r.req_id room_list (rooms_body (map (enriched w) (rooms ++ more)))

-- A payload that does not decode asks for no parent.
unfoldable pub handle_list_rooms : World → Request → Option String → Frame
unfolding rooms_reply stored_rooms
handle_list_rooms w r parent_id = rooms_reply w r parent_id (stored_rooms w r parent_id)

-- The agents that share the sender's key.
unfoldable pub handle_list_agents : World → Request → Option String → Frame
handle_list_agents w r none = reply_frame r.req_id agent_list (
    agents_body (
      map AgentConnection.info (
        keep (λ (c : AgentConnection). r.no_auth || same c.api_key r.api_key)
          (values w.broker.agents))))
handle_list_agents w r (some room_id) = authorized w r room_id (
    reply_frame r.req_id agent_list
      (agents_body (present_members w.broker.agents (get_room_members w.broker room_id))))

unfoldable pub sub_rooms : World → Request → String → List Room
sub_rooms w r room_id = keep (may_read r.api_key r.no_auth) (
    unwrap_or (list_rooms w.store (some room_id)) []
    ++ keep (under (some room_id)) (values w.ephemeral_rooms))

unfoldable pub handle_room_info : World → Request → Option String → Frame
unfolding sub_rooms
handle_room_info w r none = error_frame r.req_id invalid_payload
handle_room_info w r (some room_id) =
    elim (authorize_room r.req_id room_id r.api_key r.no_auth w.store w.ephemeral_rooms) [
      | refused f ↦ f
      | granted room ↦
          let members = get_room_members w.broker room_id in
          reply_frame r.req_id room_info_result (
            info_body room (present_members w.broker.agents members) (sub_rooms w r room_id)
              (turn_holder w.broker room_id) members)
    ]

-- A stored vote with its count and, where it is closed, its tally.
stored_info : Store → VoteMeta → Result VoteInfo
stored_info s meta = elim (get_vote_ballot_count s meta.vote_id) [
  | err e ↦ err e
  | ok votes_cast ↦ elim (load_tally s meta) [
    | err e ↦ err e
    | ok tally ↦ ok (vote_info_from_meta meta votes_cast tally)
  ]
]

consed : Result VoteInfo → Result (List VoteInfo) → Result (List VoteInfo)
consed (err e) rest = err e
consed (ok v) (err e) = err e
consed (ok v) (ok vs) = ok (v ∷ vs)

stored_infos : Store → List VoteMeta → Result (List VoteInfo)
unfolding stored_info consed
stored_infos s [] = ok []
stored_infos s (m ∷ ms) = consed (stored_info s m) (stored_infos s ms)

-- The newest first, and `limit` of them.
abbrev pub newest : ℕ → List VoteInfo → List VoteInfo
newest limit votes = take limit (sort (λ (a b : VoteInfo). leb b.created_at a.created_at) votes)

unfoldable pub listed_votes : World → String → ℕ → Result (List VoteInfo)
unfolding info_of stored_infos
listed_votes w room_id limit =
    let active = keep (λ (v : ActiveVote). same v.room_id room_id) (values w.votes.active_votes) in
    let seen = map ActiveVote.vote_id active in
    elim (list_votes w.store room_id limit) [
      | err e ↦ err e
      | ok metas ↦
          elim (stored_infos w.store
            (keep (λ (m : VoteMeta). not (contains seen m.vote_id)) metas)) [
              | err e ↦ err e
              | ok stored ↦ ok (
                  newest limit
                    (map (λ (v : ActiveVote). info_of v (length v.ballots)) active ++ stored))
            ]
    ]

votes_reply : Request → String → Result (List VoteInfo) → Frame
votes_reply r room_id (err e) = error_frame r.req_id internal_error
votes_reply r room_id (ok votes) = ok_frame r.req_id (votes_body room_id votes)

unfoldable pub handle_list_votes : World → Request → Option (String × ℕ) → Frame
unfolding listed_votes votes_reply
handle_list_votes w r none = error_frame r.req_id invalid_payload
handle_list_votes w r (some (room_id, limit)) =
    authorized w r room_id (votes_reply r room_id (listed_votes w room_id limit))
