-- ===== src/Voting/Startup.antt =====
-- What is so of the open votes of a server that starts on the database of an earlier one.
use mathlib.Core.Path.{subst}
use mathlib.Core.Option.{some-injective, none-ne-some}
use clawdchat.Base.{
  ◌<◌, ◌≡◌, refl, sym, ap, ◌∙◌, String, Bool, true, false, ◌&&◌, Option, none, some, List, map,
  keep, same, length, contains, dec_eq, ltb, leb, if◌then◌else◌, arith, Bool-cases, inl, inr,
}
use clawdchat.Base.Sorting.{every}
use clawdchat.Map.{get, values, update_all, changed, get-update_all}
use clawdchat.Map.Listing.{any-values}
use clawdchat.Store.Schema.{
  Store, Result, ok, err, db_error, unwrap_or, no_rows, VoteMeta, BallotRow, EligibleRow,
}
use clawdchat.Store.Startup.{
  is_open, is_open_vote, admit_creators, admit_voters, counted, closed_if_full, repair, initialize,
}
use clawdchat.Voting.Tally.{Ballot}
use clawdchat.Voting.Polls.{ActiveVote, VoteManager, new_manager}
use clawdchat.Voting.Restore.{reopen, reopened, restart}
use clawdchat.Voting.Restarts.{IsKeyed, vote_of, open_of, get-reopen}
use clawdchat.Voting.Electorate.{
  has_row-voters_kept, has_row-creator, every-is_admitted, contains-agents_of, length-map, nonempty,
  every-voted, agents_of, as_ballot, made_by,
}

-- The electorate is known and counted, it has the creator and everybody who has voted, and somebody is
-- still to vote.
pub record IsReady (v : ActiveVote) : Type 0 where
  pub size : v.eligible_voters ≡ length v.eligible_agents
  pub creator : contains v.eligible_agents v.created_by ≡ true
  pub voters : every (λ (b : Ballot). contains v.eligible_agents b.0) v.ballots ≡ true
  pub incomplete : length v.ballots < v.eligible_voters

-- A vote that is left open was counted, and it is not full.
counted_open :
    (rows : List EligibleRow) (m : VoteMeta)
    → is_open m ≡ true
    → counted rows m ≡ record m { eligible_voters = length (agents_of rows m.vote_id) }
unfolding keep
counted_open rows m h = rw h (
    ap (λ n. record m { eligible_voters = n })
      (sym (
        length-map (λ (row : EligibleRow). row.agent_id)
          (keep (λ (row : EligibleRow). same row.vote_id m.vote_id) rows))))

abbrev ballots_of : List BallotRow → String → List Ballot
ballots_of bs id = map as_ballot (keep (λ (b : BallotRow). same b.vote_id id) bs)

not_full :
    (b : Bool) (m : VoteMeta)
    → is_open (if b then record m { status = "closed" } else m) ≡ true
    → b ≡ false
unfolding dec_eq
not_full true m h = sym h
not_full false m h = refl

-- The test of `closed_if_full`.
abbrev is_full : List BallotRow → VoteMeta → Bool
is_full bs m =
    is_open m
    && (ltb 0 m.eligible_voters
        && leb m.eligible_voters (length (keep (λ (b : BallotRow). same b.vote_id m.vote_id) bs)))

seats_left :
    (bs : List BallotRow) (m : VoteMeta)
    → is_full bs m ≡ false
    → is_open m ≡ true
    → 0 < m.eligible_voters
    → length (ballots_of bs m.vote_id) < m.eligible_voters
seats_left bs m e opened p =
    rw (length-map as_ballot (keep (λ (b : BallotRow). same b.vote_id m.vote_id) bs))
      (ground (arith, e, opened, p))

still_same :
    (bs : List BallotRow) (m : VoteMeta)
    → is_open (closed_if_full bs m) ≡ true
    → closed_if_full bs m ≡ m
still_same bs m h = rw (not_full (is_full bs m) m h) refl

abbrev created_rows : Store → List EligibleRow
created_rows s = admit_creators s.vote_eligible_agents (values s.votes)

abbrev all_rows : Store → List EligibleRow
all_rows s = admit_voters s.votes (created_rows s) s.vote_ballots

repair-up : (s : Store) → (repair s).available ≡ s.available
unfolding repair
repair-up s = refl

get-repaired :
    (s : Store) (id : String)
    → get (repair s).votes id
      ≡ changed (closed_if_full s.vote_ballots) (changed (counted (all_rows s)) (get s.votes id))
unfolding repair
get-repaired s id =
    get-update_all (closed_if_full s.vote_ballots) (update_all (counted (all_rows s)) s.votes) id
    ∙ ap (changed (closed_if_full s.vote_ballots))
        (get-update_all (counted (all_rows s)) s.votes id)

module _ (s : Store) (meta : VoteMeta) where
  has_creator :
      get s.votes meta.vote_id ≡ some meta
      → is_open meta ≡ true
      → contains (agents_of (all_rows s) meta.vote_id) meta.created_by ≡ true
  has_creator e opened =
      contains-agents_of (all_rows s) meta.vote_id meta.created_by
      ∙ has_row-voters_kept s.votes (created_rows s) s.vote_ballots meta.vote_id meta.created_by (
          has_row-creator s.vote_eligible_agents (values s.votes) meta.vote_id meta.created_by (
            any-values (made_by meta.vote_id meta.created_by) s.votes meta.vote_id meta e
              (ground (arith, opened))))

  -- The row as it is counted.
  abbrev counted_row : VoteMeta
  counted_row = record meta { eligible_voters = length (agents_of (all_rows s) meta.vote_id) }

  counted_row-IsReady :
      get s.votes meta.vote_id ≡ some meta
      → is_open meta ≡ true
      → is_open (closed_if_full s.vote_ballots counted_row) ≡ true
      → IsReady (vote_of (repair s) counted_row)
  unfolding repair
  counted_row-IsReady e opened still =
      let made = has_creator e opened in
      record {
        size = refl;
        creator = made;
        voters = every-voted (all_rows s) s.vote_ballots meta.vote_id (
            every-is_admitted s.votes (created_rows s) s.vote_ballots meta.vote_id
              (ap is_open_vote e ∙ opened));
        incomplete =
            seats_left s.vote_ballots counted_row
              (not_full (is_full s.vote_ballots counted_row) counted_row still) opened
              (nonempty (agents_of (all_rows s) meta.vote_id) meta.created_by made);
      }

-- The row after the repair.
abbrev repaired_row : Store → VoteMeta → VoteMeta
repaired_row s meta = closed_if_full s.vote_ballots (counted (all_rows s) meta)

shut_row :
    (s : Store) (meta : VoteMeta) → is_open meta ≡ false → is_open (repaired_row s meta) ≡ false
shut_row s meta h = ground (arith, h)

open_before :
    (s : Store) (meta : VoteMeta) → is_open (repaired_row s meta) ≡ true → is_open meta ≡ true
open_before s meta h = elim (Bool-cases (is_open meta)) [
  | inl e ↦ e
  | inr e ↦ ground (arith, h, shut_row s meta e)
]

of_open :
    (s : Store) (m : VoteMeta) (v : ActiveVote)
    → is_open m ≡ true
    → open_of s (some m) ≡ some v
    → vote_of s m ≡ v
of_open s m v e h =
    some-injective (vote_of s m) v (sym (ap (λ b. if b then some (vote_of s m) else none) e) ∙ h)

open_row :
    (s : Store) (m : VoteMeta) (v : ActiveVote) → open_of s (some m) ≡ some v → is_open m ≡ true
open_row s m v h = elim (Bool-cases (is_open m)) [
  | inl e ↦ e
  | inr e ↦ elim (none-ne-some v (sym (ap (λ b. if b then some (vote_of s m) else none) e) ∙ h)) [ ]
]

repaired_row-IsReady :
    (s : Store) (meta : VoteMeta) (v : ActiveVote)
    → get s.votes meta.vote_id ≡ some meta
    → open_of (repair s) (some (repaired_row s meta)) ≡ some v
    → IsReady v
repaired_row-IsReady s meta v e h =
    let still = open_row (repair s) (repaired_row s meta) v h in
    let opened = open_before s meta still in
    let count = counted_open (all_rows s) meta opened in
    let still_open : is_open (closed_if_full s.vote_ballots (counted_row s meta)) ≡ true =
      ap (λ m. is_open (closed_if_full s.vote_ballots m)) (sym count) ∙ still in
    let row : repaired_row s meta ≡ counted_row s meta =
      ap (closed_if_full s.vote_ballots) count
      ∙ still_same s.vote_ballots (counted_row s meta) still_open in
    subst IsReady
      (ap (vote_of (repair s)) (sym row) ∙ of_open (repair s) (repaired_row s meta) v still h)
      (counted_row-IsReady s meta e opened still_open)

same_key :
    (s : Store) (k : String) (o : Option VoteMeta) (m : VoteMeta) (rows : List EligibleRow)
    → ((r : VoteMeta) → o ≡ some r → r.vote_id ≡ k)
    → changed (closed_if_full s.vote_ballots) (changed (counted rows) o) ≡ some m
    → m.vote_id ≡ k
same_key s k none m rows h e = elim (none-ne-some m e) [ ]
same_key s k (some r) m rows h e =
    ap VoteMeta.vote_id (sym (some-injective (closed_if_full s.vote_ballots (counted rows r)) m e))
    ∙ kept_key (counted rows r)
    ∙ counted_key r
    ∙ h r refl
  where
    kept_key : (r : VoteMeta) → (closed_if_full s.vote_ballots r).vote_id ≡ r.vote_id
    kept_key r = ground arith

    counted_key : (r : VoteMeta) → (counted rows r).vote_id ≡ r.vote_id
    counted_key r = ground arith

repair-IsKeyed : (s : Store) → IsKeyed s → IsKeyed (repair s)
repair-IsKeyed s keyed k m h =
    same_key s k (get s.votes k) m (all_rows s) (keyed k) (sym (get-repaired s k) ∙ h)

open_of-IsReady :
    (s : Store) (id : String) (o : Option VoteMeta) (v : ActiveVote)
    → IsKeyed s
    → get s.votes id ≡ o
    → open_of
        (repair s)
        (changed (closed_if_full s.vote_ballots) (changed (counted (all_rows s)) o))
      ≡ some v
    → IsReady v
open_of-IsReady s id none v keyed e h = elim (none-ne-some v h) [ ]
open_of-IsReady s id (some meta) v keyed e h =
    repaired_row-IsReady s meta v (ap (get s.votes) (keyed id meta e) ∙ e) h

-- The manager of a start that succeeded.
abbrev manager_of : Result (Store × VoteManager) → VoteManager
manager_of r = (unwrap_or r (no_rows, new_manager)).1

-- After a start on a database whose table of votes is keyed by their ids, every vote that is open has
-- as many eligible voters as agents are eligible; its creator is eligible, and so is everybody who has
-- a ballot in it; and it has fewer ballots than eligible voters.
pub restart-IsReady :
    (s s' : Store) (m : VoteManager) (id : String) (v : ActiveVote)
    → IsKeyed s
    → restart s ≡ ok (s', m)
    → get m.active_votes id ≡ some v
    → IsReady v
unfolding restart initialize
restart-IsReady s s' m id v keyed started h = elim (Bool-cases s.available) [
  | inr down ↦ ground (arith, started, down)
  | inl up ↦
      let manager : reopen (repair s) ≡ m =
        sym (ap (λ b. manager_of (reopened (if b then ok (repair s) else err db_error))) up)
        ∙ ap manager_of started in
      open_of-IsReady s id (get s.votes id) v keyed refl (
        ap (open_of (repair s)) (sym (get-repaired s id))
        ∙ sym (get-reopen (repair s) id (repair-IsKeyed s keyed) (repair-up s ∙ up))
        ∙ ap (λ m. get m.active_votes id) manager
        ∙ h)
]
