-- ===== src/Core/Votes.antt =====
-- models.rs: what clients see of a vote, open and closed.
use clawdchat.Base.{ℕ, String, Option, List}

pub data VoteStatus : Type 0 where
  open_vote closed_vote : VoteStatus

pub record VoteTally : Type 0 where
  pub option_index : ℕ
  pub option_text : String
  pub count : ℕ

pub record BallotEntry : Type 0 where
  pub agent_id : String
  pub agent_name : String
  pub option_index : ℕ

pub record VoteInfo : Type 0 where
  pub vote_id : String
  pub room_id : String
  pub title : String
  pub description : Option String
  pub options : List String
  pub created_by : String
  pub created_at : ℕ
  pub closes_at : Option ℕ
  pub status : VoteStatus
  pub votes_cast : ℕ
  pub eligible_voters : ℕ
  pub tally : Option (List VoteTally)

pub record VoteResultPayload : Type 0 where
  pub vote_id : String
  pub room_id : String
  pub title : String
  pub options : List String
  pub tally : List VoteTally
  pub ballots : List BallotEntry
  pub total_votes : ℕ
  pub eligible_voters : ℕ
