-- ===== src/Core/Protocol.antt =====
-- protocol.rs: the frames on the wire. A frame's random correlation id is left out, and its JSON
-- payload is the value that the server serialises into it.
use clawdchat.Base.{ℕ, String, Bool, Option, none, List}
use clawdchat.Core.Json.{Json}
use clawdchat.Core.Errors.{ErrorCode}
use clawdchat.Core.Models.{Room, ChatMessage, TaskInfo, TurnChangedPayload, AgentInfo, Subscription}
use clawdchat.Core.Votes.{VoteInfo, VoteResultPayload}

pub data FrameType : Type 0 where
  register ping create_room join_room leave_room send_message get_history list_rooms : FrameType
  list_agents room_info room_tip create_vote cast_vote get_vote_status list_votes : FrameType
  elect_leader decline_election decision assign_task update_task list_tasks : FrameType
  set_typing set_presence thinking subscribe unsubscribe list_subscriptions : FrameType
  enable_subscription ok error pong message_received mention agent_joined agent_left : FrameType
  room_created room_destroyed presence_update history_result room_list agent_list : FrameType
  room_info_result room_tip_result vote_created vote_result election_started : FrameType
  leader_elected leader_cleared decision_made task_assigned task_updated task_list : FrameType
  typing_indicator turn_changed : FrameType

-- The bodies that the server writes into its events and replies.
pub data Payload : Type 0 where
  empty_body : Payload
  error_body : ErrorCode → Payload
  room_id_body : String → Payload
  room_body : Room → Payload
  message_body : ChatMessage → Payload
  mention_body : String → ChatMessage → Payload
  joined_body : String → String → String → Payload
  left_body : String → String → Payload
  turn_body : TurnChangedPayload → Payload
  vote_body : VoteInfo → Payload
  vote_result_body : VoteResultPayload → Payload
  vote_cast_body : String → ℕ → ℕ → Payload
  election_body : String → List String → String → Payload
  opened_body : String → List String → Payload
  posted_body : String → String → Payload
  leader_body : String → String → String → Payload
  cleared_body : String → String → Payload
  decision_body : String → String → String → String → String → Json → ℕ → Payload
  decided_body : String → String → Payload
  task_body : TaskInfo → Payload
  typing_body : String → String → String → Bool → Payload
  presence_body : String → String → String → Option String → Option ℕ → Payload
  status_body : String → Payload
  history_body : String → List ChatMessage → Payload
  tip_body : String → ℕ → Payload
  rooms_body : List Room → Payload
  agents_body : List AgentInfo → Payload
  tasks_body : String → List TaskInfo → Payload
  votes_body : String → List VoteInfo → Payload
  info_body : Room → List AgentInfo → List Room → Option String → List String → Payload
  subscription_body : Subscription → Payload
  subscriptions_body : List Subscription → Payload
  deleted_body : Payload
  enabled_body : String → Payload
  registered_body : String → String → ℕ → Option (List String × ℕ) → Payload
  rejoined_body : String → String → String → Payload

pub record Frame : Type 0 where
  pub reply_to : Option String
  pub frame_type : FrameType
  pub payload : Payload

abbrev pub ok_frame : Option String → Payload → Frame
ok_frame reply_to payload = record {
  reply_to = reply_to;
  frame_type = FrameType.ok;
  payload = payload;
}

abbrev pub error_frame : Option String → ErrorCode → Frame
error_frame reply_to code = record {
  reply_to = reply_to;
  frame_type = FrameType.error;
  payload = error_body code;
}

abbrev pub event : FrameType → Payload → Frame
event frame_type payload = record { reply_to = none; frame_type = frame_type; payload = payload }

abbrev pub pong_frame : Option String → Frame
pong_frame reply_to = record {
  reply_to = reply_to;
  frame_type = FrameType.pong;
  payload = empty_body;
}

abbrev pub reply_frame : Option String → FrameType → Payload → Frame
reply_frame reply_to frame_type payload = record {
  reply_to = reply_to;
  frame_type = frame_type;
  payload = payload;
}

abbrev pub protocol_version : ℕ
protocol_version = 1

abbrev pub min_supported_protocol : ℕ
min_supported_protocol = 1
