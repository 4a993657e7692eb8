-- ===== src/Core/Models.antt =====
-- models.rs: agents, rooms, messages, tasks and subscriptions. Times are milliseconds.
use clawdchat.Base.{ℕ, String, Bool, Option, List}
use clawdchat.Core.Json.{Json}

pub record AgentInfo : Type 0 where
  pub agent_id : String
  pub name : String
  pub capabilities : List String
  pub connected_at : Option ℕ
  pub last_active : Option ℕ
  pub status : Option String
  pub status_detail : Option String
  pub progress : Option ℕ

pub record Room : Type 0 where
  pub room_id : String
  pub name : String
  pub description : Option String
  pub parent_id : Option String
  pub ephemeral : Bool
  pub created_at : ℕ
  pub created_by : Option String
  pub visibility : String
  pub owner_key : Option String
  pub last_activity : Option ℕ
  pub member_count : Option ℕ
  pub encrypted : Bool

pub record ChatMessage : Type 0 where
  pub message_id : String
  pub room_id : String
  pub agent_id : String
  pub agent_name : String
  pub content : String
  pub reply_to_message : Option String
  pub metadata : Json
  pub timestamp : ℕ
  pub seq : ℕ

pub record TaskInfo : Type 0 where
  pub task_id : String
  pub room_id : String
  pub title : String
  pub description : Option String
  pub status : String
  pub assignee : Option String
  pub created_by : String
  pub created_at : ℕ
  pub updated_at : Option ℕ
  pub note : Option String

pub record Subscription : Type 0 where
  pub subscription_id : String
  pub room_id : String
  pub webhook_url : String
  pub kinds : List String
  pub only_from : Option String
  pub not_from : Option String
  pub exclude_thinking : Bool
  pub since_seq : ℕ
  pub last_delivered_seq : ℕ
  pub status : String
  pub failure_count : ℕ
  pub created_at : ℕ

pub record TurnChangedPayload : Type 0 where
  pub room_id : String
  pub current_turn_holder : Option String
  pub turn_order : List String
  pub reason : String
