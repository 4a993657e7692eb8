-- ===== src/Voting/Restore.antt =====
-- The open votes that a new vote manager finds in its store, as `Store::initialize` has left it. The
-- timer that a vote with a deadline gets is a call of `finish` at a later time.
use clawdchat.Base.{false, List, [], ◌∷◌}
use clawdchat.Map.{Map, empty, insert}
use clawdchat.Store.Schema.{Store, Result, ok, err, unwrap_or, VoteMeta}
use clawdchat.Store.Ballots.{get_vote_ballots, get_vote_eligible_agents}
use clawdchat.Store.Listings.{list_open_votes}
use clawdchat.Store.Startup.{initialize}
use clawdchat.Voting.Polls.{ActiveVote, VoteManager}

unfoldable pub restored : Store → VoteMeta → ActiveVote
restored s meta = record {
  vote_id = meta.vote_id;
  room_id = meta.room_id;
  title = meta.title;
  description = meta.description;
  options = meta.options;
  created_by = meta.created_by;
  created_at = meta.created_at;
  closes_at = meta.closes_at;
  ballots = unwrap_or (get_vote_ballots s meta.vote_id) [];
  eligible_voters = meta.eligible_voters;
  eligible_agents = unwrap_or (get_vote_eligible_agents s meta.vote_id) [];
  is_ephemeral = false;
}

unfoldable pub restore_each : Map ActiveVote → Store → List VoteMeta → Map ActiveVote
unfolding restored
restore_each votes s [] = votes
restore_each votes s (m ∷ ms) = restore_each (insert votes m.vote_id (restored s m)) s ms

unfoldable pub restore_listed : Store → Result (List VoteMeta) → Map ActiveVote
unfolding restore_each
restore_listed s (err e) = empty
restore_listed s (ok metas) = restore_each empty s metas

-- `VoteManager::new`.
unfoldable pub reopen : Store → VoteManager
unfolding restore_listed
reopen s = record {
  active_votes = restore_listed s (list_open_votes s);
  active_elections = empty;
  room_leaders = empty;
}

abbrev pub reopened : Result Store → Result (Store × VoteManager)
reopened (err e) = err e
reopened (ok s) = ok (s, reopen s)

-- A server's start on a database: the store is opened, and then the vote manager is made.
unfoldable pub restart : Store → Result (Store × VoteManager)
restart s = reopened (initialize s)
