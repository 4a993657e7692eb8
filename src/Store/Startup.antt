-- ===== src/Store/Startup.antt =====
-- crates/clawchat-server/src/store.rs: what `initialize` does to the open votes of a database that an
-- earlier server has left. The creation of tables and columns is left out.
use clawdchat.Base.{
  String, Bool, false, ◌&&◌, Option, none, some, List, [], ◌∷◌, ◌++◌, any, same, length, keep, ltb,
  leb, if◌then◌else◌,
}
use clawdchat.Map.{Map, get, values, update_all}
use clawdchat.Store.Schema.{Store, Result, ok, err, db_error, VoteMeta, BallotRow, EligibleRow}

abbrev pub has_row : List EligibleRow → String → String → Bool
has_row rows vote_id agent_id =
    any (λ (row : EligibleRow). same row.vote_id vote_id && same row.agent_id agent_id) rows

-- `INSERT OR IGNORE`.
unfoldable pub admit : List EligibleRow → String → String → List EligibleRow
admit rows vote_id agent_id =
    if has_row rows vote_id agent_id
    then rows
    else rows ++ record { vote_id = vote_id; agent_id = agent_id } ∷ []

abbrev pub is_open : VoteMeta → Bool
is_open m = same m.status "open"

abbrev pub is_open_vote : Option VoteMeta → Bool
is_open_vote none = false
is_open_vote (some m) = is_open m

unfoldable pub admit_creators : List EligibleRow → List VoteMeta → List EligibleRow
unfolding admit
admit_creators rows [] = rows
admit_creators rows (m ∷ ms) =
    admit_creators (if is_open m then admit rows m.vote_id m.created_by else rows) ms

-- The ballots of open votes.
unfoldable pub admit_voters : Map VoteMeta → List EligibleRow → List BallotRow → List EligibleRow
unfolding admit
admit_voters votes rows [] = rows
admit_voters votes rows (b ∷ bs) =
    admit_voters votes
      (if is_open_vote (get votes b.vote_id) then admit rows b.vote_id b.agent_id else rows) bs

abbrev pub counted : List EligibleRow → VoteMeta → VoteMeta
counted rows m =
    if is_open m
    then record m {
      eligible_voters = length (keep (λ (row : EligibleRow). same row.vote_id m.vote_id) rows);
    }
    else m

abbrev pub closed_if_full : List BallotRow → VoteMeta → VoteMeta
closed_if_full ballots m =
    if is_open m
      && (ltb 0 m.eligible_voters
          && leb m.eligible_voters
              (length (keep (λ (b : BallotRow). same b.vote_id m.vote_id) ballots)))
    then record m { status = "closed" }
    else m

unfoldable pub repair : Store → Store
unfolding admit_creators admit_voters
repair s =
    let rows =
      admit_voters s.votes (admit_creators s.vote_eligible_agents (values s.votes))
        s.vote_ballots in
    record s {
      vote_eligible_agents = rows;
      votes = update_all (closed_if_full s.vote_ballots) (update_all (counted rows) s.votes);
    }

unfoldable pub initialize : Store → Result Store
unfolding repair
initialize s = if s.available then ok (repair s) else err db_error
