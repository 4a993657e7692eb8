-- ===== src/Store/Ballots.antt =====
-- Votes, their electorate and their ballots.
use clawdchat.Base.{
  ℕ, String, Bool, ◌&&◌, ◌||◌, not, Option, none, some, List, [], ◌∷◌, ◌++◌, any, same, length,
  keep, map, if◌then◌else◌,
}
use clawdchat.Map.{get, insert, update, contains_key}
use clawdchat.Store.Schema.{
  Store, Result, ok, err, db_error, vote_not_found, vote_closed, already_voted, query, VoteMeta,
  BallotRow, EligibleRow,
}

-- One row for each agent; the primary key refuses a second row for one agent of a vote.
insert_eligible : List EligibleRow → String → List String → Option (List EligibleRow)
insert_eligible rows vote_id [] = some rows
insert_eligible rows vote_id (a ∷ agents) =
    let rest =
      insert_eligible (rows ++ record { vote_id = vote_id; agent_id = a } ∷ []) vote_id agents in
    if any (λ (row : EligibleRow). same row.vote_id vote_id && same row.agent_id a) rows
    then none
    else rest

unfoldable pub create_vote :
    Store
    → ℕ
    → String
    → String
    → String
    → Option String
    → List String
    → String
    → Option ℕ
    → List String
    → Store × Result (Unit {0})
unfolding insert_eligible
create_vote s now vote_id room_id title description options created_by closes_at eligible_agents =
    let meta : VoteMeta = record {
      vote_id = vote_id;
      room_id = room_id;
      title = title;
      description = description;
      options = options;
      created_by = created_by;
      created_at = now;
      closes_at = closes_at;
      status = "open";
      eligible_voters = length eligible_agents;
    } in
    if not s.available || contains_key s.votes vote_id
    then (s, err db_error)
    else elim (insert_eligible s.vote_eligible_agents vote_id eligible_agents) [
      | none ↦ (s, err db_error)
      | some rows ↦
          (record s { votes = insert s.votes vote_id meta; vote_eligible_agents = rows }, ok tt)
    ]

-- The callers take the agents as a set; they come in the order of the rows here.
unfoldable pub get_vote_eligible_agents : Store → String → Result (List String)
get_vote_eligible_agents s vote_id = query s (
    map (λ (row : EligibleRow). row.agent_id)
      (keep (λ row. same row.vote_id vote_id) s.vote_eligible_agents))

abbrev pub has_ballot : List BallotRow → String → String → Bool
has_ballot rows vote_id agent_id =
    any (λ (row : BallotRow). same row.vote_id vote_id && same row.agent_id agent_id) rows

unfoldable pub cast_vote : Store → String → String → String → ℕ → Store × Result (Unit {0})
cast_vote s vote_id agent_id agent_name option_index =
    let row : BallotRow = record {
      vote_id = vote_id;
      agent_id = agent_id;
      agent_name = agent_name;
      option_index = option_index;
    } in
    if not s.available then (s, err db_error) else elim (get s.votes vote_id) [
      | none ↦ (s, err vote_not_found)
      | some meta ↦
          if not (same meta.status "open")
          then (s, err vote_closed)
          else if has_ballot s.vote_ballots vote_id agent_id
          then (s, err already_voted)
          else (record s { vote_ballots = s.vote_ballots ++ row ∷ [] }, ok tt)
    ]

unfoldable pub get_vote_ballot_count : Store → String → Result ℕ
get_vote_ballot_count s vote_id =
    query s (length (keep (λ (row : BallotRow). same row.vote_id vote_id) s.vote_ballots))

-- In the order in which they were cast.
unfoldable pub get_vote_ballots : Store → String → Result (List (String × String × ℕ))
get_vote_ballots s vote_id = query s (
    map (λ (row : BallotRow). (row.agent_id, row.agent_name, row.option_index))
      (keep (λ row. same row.vote_id vote_id) s.vote_ballots))

unfoldable pub close_vote : Store → String → Store × Result (Unit {0})
close_vote s vote_id =
    if s.available
    then (
      record s { votes = update s.votes vote_id (λ meta. record meta { status = "closed" }) },
      ok tt,
    )
    else (s, err db_error)

unfoldable pub get_vote_meta : Store → String → Result (Option VoteMeta)
get_vote_meta s vote_id = query s (get s.votes vote_id)
