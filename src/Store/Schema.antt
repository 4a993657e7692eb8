-- ===== src/Store/Schema.antt =====
-- The tables. A table with a primary key is keyed by it, and keeps the order of insertion; times are
-- milliseconds, as the columns store them. While `available` is false every statement fails.
use clawdchat.Base.{ℕ, String, Bool, true, Option, List, [], if◌then◌else◌, ◌≡◌, arith}
use clawdchat.Map.{Map, empty}
use clawdchat.Core.Models.{Room, ChatMessage, TaskInfo, Subscription}

pub data StoreError : Type 0 where
  db_error : StoreError
  room_name_taken : String → StoreError
  vote_not_found vote_closed already_voted : StoreError

pub data Result {ℓ} (A : Type ℓ) : Type ℓ where
  ok : A → Result A
  err : StoreError → Result A

-- `result.unwrap_or(a)`.
abbrev pub unwrap_or {ℓ} : {A : Type ℓ} → Result A → A → A
unwrap_or (ok a) b = a
unwrap_or (err e) b = b

pub record VoteMeta : Type 0 where
  pub vote_id : String
  pub room_id : String
  pub title : String
  pub description : Option String
  pub options : List String
  pub created_by : String
  pub created_at : ℕ
  pub closes_at : Option ℕ
  pub status : String
  pub eligible_voters : ℕ

pub record BallotRow : Type 0 where
  pub vote_id : String
  pub agent_id : String
  pub agent_name : String
  pub option_index : ℕ

pub record EligibleRow : Type 0 where
  pub vote_id : String
  pub agent_id : String

pub record SubscriptionRow : Type 0 where
  pub sub : Subscription
  pub owner_key : String
  pub secret : String

pub record DeliveryRow : Type 0 where
  pub delivery_id : String
  pub subscription_id : String
  pub message_seq : ℕ
  pub message_id : String
  pub next_attempt_at : ℕ
  pub attempts : ℕ
  pub last_error : Option String

pub record SessionRow : Type 0 where
  pub session_id : String
  pub agent_id : String
  pub agent_name : String
  pub capabilities : List String
  pub connected_at : ℕ
  pub disconnected_at : Option ℕ

pub record Store : Type 0 where
  pub available : Bool
  pub api_keys : Map String
  pub agent_identities : Map String
  pub rooms : Map Room
  pub messages : Map ChatMessage
  pub room_sequences : Map ℕ
  pub agent_sessions : Map SessionRow
  pub votes : Map VoteMeta
  pub vote_ballots : List BallotRow
  pub vote_eligible_agents : List EligibleRow
  pub room_tasks : Map TaskInfo
  pub subscriptions : Map SubscriptionRow
  pub subscription_deliveries : List DeliveryRow

abbrev pub no_rows : Store
no_rows = record {
  available = true;
  api_keys = empty;
  agent_identities = empty;
  rooms = empty;
  messages = empty;
  room_sequences = empty;
  agent_sessions = empty;
  votes = empty;
  vote_ballots = [];
  vote_eligible_agents = [];
  room_tasks = empty;
  subscriptions = empty;
  subscription_deliveries = [];
}

-- A statement that only reads.
abbrev pub query {ℓ} : {A : Type ℓ} → Store → A → Result A
query s a = if s.available then ok a else err db_error

-- What a statement that reads has answered.
pub query-ok {ℓ} : {A : Type ℓ} (s : Store) (a b : A) → query s a ≡ ok b → a ≡ b
query-ok s a b h = ground (arith, h)
