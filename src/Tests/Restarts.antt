-- ===== src/Tests/Restarts.antt =====
-- A new vote manager, and a start, with an open vote in the store.
use clawdchat.Base.{◌≡◌, refl, false, none, [], ◌∷◌, arith}
use clawdchat.Map.{get, empty, insert, get-insert, get-empty}
use clawdchat.Store.Schema.{Store, VoteMeta, no_rows}
use clawdchat.Store.Startup.{repair}
use clawdchat.Voting.Polls.{ActiveVote}
use clawdchat.Voting.Startup.{IsReady, restart-IsReady}
use clawdchat.Voting.Restore.{reopen}
use clawdchat.Voting.Restarts.{IsKeyed, open_of, get-reopen}

abbrev drinks_row : VoteMeta
drinks_row = record {
  vote_id = "v1";
  room_id = "lobby";
  title = "drinks";
  description = none;
  options = "tea" ∷ "milk" ∷ [];
  created_by = "ann";
  created_at = 0;
  closes_at = none;
  status = "open";
  eligible_voters = 1;
}

abbrev ballot_box : Store
ballot_box = record no_rows {
  votes = insert empty "v1" drinks_row;
  vote_ballots =
      record { vote_id = "v1"; agent_id = "ann"; agent_name = "Ann"; option_index = 1 } ∷ [];
  vote_eligible_agents = record { vote_id = "v1"; agent_id = "ann" } ∷ [];
}

ballot_box-IsKeyed : IsKeyed ballot_box
ballot_box-IsKeyed k m h =
    ground (arith, h, get-insert empty "v1" drinks_row k, get-empty {V = VoteMeta} k)

get-reopen_example :
    get (reopen ballot_box).active_votes "v1" ≡ open_of ballot_box (get ballot_box.votes "v1")
get-reopen_example = get-reopen ballot_box "v1" ballot_box-IsKeyed refl

-- A database whose open vote has a ballot of Bob and no eligible agents yet.
abbrev legacy : Store
legacy = record no_rows {
  votes = insert empty "v1" drinks_row;
  vote_ballots =
      record { vote_id = "v1"; agent_id = "bob"; agent_name = "Bob"; option_index = 1 } ∷ [];
}

legacy-IsKeyed : IsKeyed legacy
legacy-IsKeyed k m h =
    ground (arith, h, get-insert empty "v1" drinks_row k, get-empty {V = VoteMeta} k)

abbrev drinks_vote : ActiveVote
drinks_vote = record {
  vote_id = "v1";
  room_id = "lobby";
  title = "drinks";
  description = none;
  options = "tea" ∷ "milk" ∷ [];
  created_by = "ann";
  created_at = 0;
  closes_at = none;
  ballots = ("bob", "Bob", 1) ∷ [];
  eligible_voters = 2;
  eligible_agents = "ann" ∷ "bob" ∷ [];
  is_ephemeral = false;
}

restart-IsReady_example : IsReady drinks_vote
unfolding clawdchat.Voting.Restore.restart clawdchat.Store.Startup.initialize get reopen
    clawdchat.Store.Listings.list_open_votes clawdchat.Base.Sorting.sort clawdchat.Base.keep
    clawdchat.Map.values clawdchat.Map.update_all insert empty clawdchat.Base.dec_eq
    clawdchat.Base.any clawdchat.Store.Ballots.get_vote_ballots
    clawdchat.Store.Ballots.get_vote_eligible_agents
restart-IsReady_example =
    restart-IsReady legacy (repair legacy) (reopen (repair legacy)) "v1" drinks_vote legacy-IsKeyed
      refl refl
