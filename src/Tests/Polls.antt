-- ===== src/Tests/Polls.antt =====
-- Votes and elections.
use clawdchat.Base.{
  ℕ, zero, suc, ◌+◌, ◌<◌, ◌≡◌, ◌≢◌, refl, String, ite, true, false, Option, none, some, List, [],
  ◌∷◌, if_pos, if_neg, dec_eq, length, get_elem?, arith, Bool, contains,
}
use clawdchat.Map.{get, empty, insert, get-insert, get-empty}
use clawdchat.Core.Protocol.{vote_result, event, vote_result_body}
use clawdchat.Broker.{new_broker, broadcast_to_room_all}
use clawdchat.Store.Schema.{no_rows}
use clawdchat.Voting.Tally.{Ballot, build_vote_tally, tally_lem, votes_for, total}
use clawdchat.Voting.Polls.{
  ActiveVote, ActiveElection, VoteManager, Polls, new_manager, cast_vote, result_of,
}
use clawdchat.Voting.Closing.{IsPoll, AllPolls, IsValid, with_ballot}
use clawdchat.Voting.Turnout.{cast_vote-AllPolls, cast_each, everyone_votes, last_ballot}
use clawdchat.Voting.Leaders.{IsChoice}

abbrev ballots : List Ballot
ballots = ("ann", "Ann", 1) ∷ ("bob", "Bob", 0) ∷ []

tally_lem_example :
    (get_elem? (build_vote_tally ("tea" ∷ "milk" ∷ []) ballots) 1
      ≡ some (record { option_index = 1; option_text = "milk"; count = votes_for 1 ballots }))
    × (total (build_vote_tally ("tea" ∷ "milk" ∷ []) ballots) ≡ 2)
tally_lem_example =
    tally_lem ("tea" ∷ "milk" ∷ []) ballots 1 "milk" (omega arith, (omega arith, tt)) refl

abbrev drinks : List Ballot → ActiveVote
drinks bs = record {
  vote_id = "v1";
  room_id = "lobby";
  title = "drinks";
  description = none;
  options = "tea" ∷ "milk" ∷ [];
  created_by = "ann";
  created_at = 0;
  closes_at = none;
  ballots = bs;
  eligible_voters = 2;
  eligible_agents = "ann" ∷ "bob" ∷ [];
  is_ephemeral = false;
}

abbrev open_polls : List Ballot → Polls
open_polls bs = record {
  manager = record new_manager { active_votes = insert empty "v1" (drinks bs) };
  broker = new_broker;
  store = no_rows;
}

drinks-IsPoll : IsPoll (drinks [])
drinks-IsPoll = record { in_range = tt; single = tt; eligible = tt; unfinished = omega arith }

half-IsPoll : IsPoll (drinks (("ann", "Ann", 1) ∷ []))
unfolding contains dec_eq
half-IsPoll = record {
  in_range = (omega arith, tt);
  single = (refl, tt);
  eligible = (refl, tt);
  unfinished = omega arith;
}

drinks-AllPolls : AllPolls (open_polls []).manager
drinks-AllPolls id = elim (dec_eq "v1" id) [
  | yes e ↦ rw (get-insert empty "v1" (drinks []) id, if_pos _ e) drinks-IsPoll
  | no n ↦ rw (get-insert empty "v1" (drinks []) id, if_neg _ n, get-empty {V = ActiveVote} id) tt
]

cast_vote-AllPolls_example : AllPolls (cast_vote (open_polls []) "v1" "ann" "Ann" 1).0.manager
cast_vote-AllPolls_example = cast_vote-AllPolls (open_polls []) "v1" "ann" "Ann" 1 drinks-AllPolls

everyone_votes_example :
    get (cast_each (open_polls []) "v1" ballots).manager.active_votes "v1" ≡ none
unfolding get insert empty dec_eq contains
everyone_votes_example =
    everyone_votes (open_polls []) "v1" (drinks []) ("ann", "Ann", 1) (("bob", "Bob", 0) ∷ []) refl
      refl (omega arith, (omega arith, tt)) (refl, (refl, tt)) (refl, (refl, tt)) refl

bob-IsValid : IsValid (drinks (("ann", "Ann", 1) ∷ [])) "bob" "Bob" 0
unfolding contains dec_eq clawdchat.Base.any
bob-IsValid = record { option = omega arith; right = refl; fresh = refl }

last_ballot_example :
    let p = open_polls (("ann", "Ann", 1) ∷ []) in
    let w = with_ballot (drinks (("ann", "Ann", 1) ∷ [])) "bob" "Bob" 0 in
    ((cast_vote p "v1" "bob" "Bob" 0).0.broker
      ≡ broadcast_to_room_all p.broker "lobby" (event vote_result (vote_result_body (result_of w))))
    × (total (result_of w).tally ≡ 2)
unfolding get insert empty dec_eq
last_ballot_example =
    last_ballot (open_polls (("ann", "Ann", 1) ∷ [])) "v1" "bob" "Bob" 0
      (drinks (("ann", "Ann", 1) ∷ [])) refl half-IsPoll bob-IsValid refl

abbrev election : List String → ActiveElection
election declined = record {
  room_id = "lobby";
  candidates = "ann" ∷ "bob" ∷ [];
  declined = declined;
  started_by = "ann";
}

abbrev running : List String → VoteManager
running declined = record new_manager {
  active_elections = insert empty "lobby" (election declined);
}

abbrev first_of : List String → String
first_of [] = ""
first_of (x ∷ xs) = x

first_of-IsChoice : IsChoice first_of
unfolding contains
first_of-IsChoice x xs = ground arith
