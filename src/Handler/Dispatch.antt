-- ===== src/Handler/Dispatch.antt =====
-- Which handler answers which frame. A frame stands here with the payload that it decodes to, where
-- `none` is one that does not; `other` is a frame of a type that no client sends.
use clawdchat.Base.{ℕ, String, Bool, Option}
use clawdchat.Core.Commands.{
  CreateRoomPayload, SendMessagePayload, ThinkingPayload, CreateVotePayload, CastVotePayload,
  AssignTaskPayload, UpdateTaskPayload, SetTypingPayload, SetPresencePayload, DecisionPayload,
  GetHistoryPayload, SubscribePayload,
}
use clawdchat.Core.Errors.{invalid_payload}
use clawdchat.Core.Models.{ChatMessage}
use clawdchat.Core.Protocol.{Frame, pong_frame, error_frame}
use clawdchat.Handler.{World, Request}
use clawdchat.Handler.Rooms.{handle_create_room, handle_join_room, handle_leave_room}
use clawdchat.Handler.Posts.{handle_send_message, handle_thinking, handle_decision}
use clawdchat.Handler.Polling.{
  handle_create_vote, handle_cast_vote, handle_elect_leader, handle_decline_election,
}
use clawdchat.Handler.Work.{
  handle_assign_task, handle_update_task, handle_set_typing, handle_set_presence,
}
use clawdchat.Handler.Reads.{handle_room_tip, handle_list_tasks, handle_get_vote_status}
use clawdchat.Handler.Listings.{
  handle_get_history, handle_list_rooms, handle_list_agents, handle_room_info, handle_list_votes,
}
use clawdchat.Handler.Subscriptions.{
  handle_subscribe, handle_unsubscribe, handle_list_subscriptions, handle_enable_subscription,
}

pub data Incoming : Type 0 where
  ping other : Incoming
  create_room : Option CreateRoomPayload → Incoming
  join_room leave_room elect_leader decline_election : Option String → Incoming
  send_message : Option SendMessagePayload → Incoming
  thinking : Option ThinkingPayload → Incoming
  decision : Option DecisionPayload → Incoming
  get_history : Option GetHistoryPayload → Incoming
  list_rooms list_agents : Option String → Incoming
  room_info room_tip get_vote_status : Option String → Incoming
  create_vote : Option CreateVotePayload → Incoming
  cast_vote : Option CastVotePayload → Incoming
  list_votes : Option (String × ℕ) → Incoming
  set_typing : Option SetTypingPayload → Incoming
  set_presence : Option SetPresencePayload → Incoming
  subscribe : Option SubscribePayload → Incoming
  unsubscribe enable_subscription : Option String → Incoming
  list_subscriptions : Option (Option String) → Incoming
  assign_task : Option AssignTaskPayload → Incoming
  update_task : Option UpdateTaskPayload → Incoming
  list_tasks : Option (String × Option String) → Incoming

-- What the webhook handlers take from outside: which addresses are accepted, and fresh ids.
pub record Outside : Type 0 where
  pub valid_url : String → Bool
  pub delivery_id : ChatMessage → String

unfoldable pub handle_frame : World → Request → Outside → Incoming → World × Frame
handle_frame w r o ping = (w, pong_frame r.req_id)
handle_frame w r o (create_room p) = handle_create_room w r p
handle_frame w r o (join_room p) = handle_join_room w r p
handle_frame w r o (leave_room p) = handle_leave_room w r p
handle_frame w r o (send_message p) = handle_send_message w r p
handle_frame w r o (get_history p) = (w, handle_get_history w r p)
handle_frame w r o (list_rooms p) = (w, handle_list_rooms w r p)
handle_frame w r o (list_agents p) = (w, handle_list_agents w r p)
handle_frame w r o (room_info p) = (w, handle_room_info w r p)
handle_frame w r o (room_tip p) = (w, handle_room_tip w r p)
handle_frame w r o (create_vote p) = handle_create_vote w r p
handle_frame w r o (cast_vote p) = handle_cast_vote w r p
handle_frame w r o (get_vote_status p) = (w, handle_get_vote_status w r p)
handle_frame w r o (list_votes p) = (w, handle_list_votes w r p)
handle_frame w r o (elect_leader p) = handle_elect_leader w r p
handle_frame w r o (decline_election p) = handle_decline_election w r p
handle_frame w r o (decision p) = handle_decision w r p
handle_frame w r o (set_typing p) = handle_set_typing w r p
handle_frame w r o (set_presence p) = handle_set_presence w r p
handle_frame w r o (thinking p) = handle_thinking w r p
handle_frame w r o (subscribe p) = handle_subscribe w r o.valid_url o.delivery_id p
handle_frame w r o (unsubscribe p) = handle_unsubscribe w r p
handle_frame w r o (list_subscriptions p) = (w, handle_list_subscriptions w r p)
handle_frame w r o (enable_subscription p) = handle_enable_subscription w r o.delivery_id p
handle_frame w r o (assign_task p) = handle_assign_task w r p
handle_frame w r o (update_task p) = handle_update_task w r p
handle_frame w r o (list_tasks p) = (w, handle_list_tasks w r p)
handle_frame w r o other = (w, error_frame r.req_id invalid_payload)
