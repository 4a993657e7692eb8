-- ===== src/Core/Commands.antt =====
-- models.rs: the payloads of the commands that clients send, after JSON decoding.
use clawdchat.Base.{ℕ, String, Bool, Option, List}
use clawdchat.Core.Json.{Json}

pub record CreateRoomPayload : Type 0 where
  pub name : String
  pub description : Option String
  pub parent_id : Option String
  pub ephemeral : Bool
  pub is_public : Bool
  pub encrypted : Bool

pub record SendMessagePayload : Type 0 where
  pub room_id : String
  pub content : String
  pub reply_to : Option String
  pub metadata : Json
  pub mentions : List String

pub record ThinkingPayload : Type 0 where
  pub room_id : String
  pub content : String

pub record CreateVotePayload : Type 0 where
  pub room_id : String
  pub title : String
  pub description : Option String
  pub options : List String
  pub duration_secs : Option ℕ

pub record CastVotePayload : Type 0 where
  pub vote_id : String
  pub option_index : ℕ

pub record AssignTaskPayload : Type 0 where
  pub room_id : String
  pub title : String
  pub description : Option String
  pub assignee : Option String

pub record UpdateTaskPayload : Type 0 where
  pub task_id : String
  pub status : Option String
  pub assignee : Option String
  pub note : Option String

pub record SetTypingPayload : Type 0 where
  pub room_id : String
  pub typing : Bool

pub record SetPresencePayload : Type 0 where
  pub status : String
  pub status_detail : Option String
  pub progress : Option ℕ

pub record DecisionPayload : Type 0 where
  pub room_id : String
  pub content : String
  pub metadata : Json

pub record GetHistoryPayload : Type 0 where
  pub room_id : String
  pub limit : ℕ
  pub before : Option ℕ
  pub since : Option String
  pub since_seq : Option ℕ

pub record SubscribePayload : Type 0 where
  pub room_id : String
  pub webhook_url : String
  pub secret : String
  pub kinds : List String
  pub only_from : Option String
  pub not_from : Option String
  pub exclude_thinking : Bool
  pub since_seq : Option ℕ

pub record RegisterPayload : Type 0 where
  pub key : String
  pub agent_id : Option String
  pub name : String
  pub capabilities : List String
  pub reconnect : Bool
  pub protocol_version : Option ℕ
