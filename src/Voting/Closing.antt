-- ===== src/Voting/Closing.antt =====
-- What an open vote is sure of, and how it ends.
use clawdchat.Base.{
  ℕ, ◌+◌, ◌<◌, String, ◌≡◌, refl, sym, ap, ◌∙◌, true, false, Option, none, some, List, [], ◌∷◌,
  ◌++◌, any, length, contains, leb, map, if◌then◌else◌, arith, IsDistinct, length-append,
  IsDistinct-snoc,
}
use clawdchat.Map.{get, insert}
use clawdchat.Core.Errors.{ErrorCode}
use clawdchat.Voting.Tally.{Ballot, InRange}
use clawdchat.Voting.Polls.{
  ActiveVote, VoteManager, Polls, done, failed, with_votes, finish, cast_vote, has_voted,
}

abbrev pub voters : List Ballot → List String
voters = map (λ b. b.0)

abbrev pub AllEligible : List String → List Ballot → Type 0
AllEligible agents [] = Unit {0}
AllEligible agents (b ∷ bs) = (contains agents b.0 ≡ true) × AllEligible agents bs

-- An open vote: its ballots name options of the vote, come from eligible agents, one from each, and
-- some are still to come.
pub record IsPoll (v : ActiveVote) : Type 0 where
  pub in_range : InRange (length v.options) v.ballots
  pub single : IsDistinct (voters v.ballots)
  pub eligible : AllEligible v.eligible_agents v.ballots
  pub unfinished : length v.ballots < v.eligible_voters

abbrev pub IsPoll? : Option ActiveVote → Type 0
IsPoll? none = Unit {0}
IsPoll? (some v) = IsPoll v

abbrev pub AllPolls : VoteManager → Type 0
AllPolls m = (id : String) → IsPoll? (get m.active_votes id)

pub has_voted-voters : (bs : List Ballot) (a : String) → has_voted bs a ≡ contains (voters bs) a
unfolding any contains
has_voted-voters [] a = refl
has_voted-voters (b ∷ bs) a = ground (arith, has_voted-voters bs a)

pub voters-snoc : (bs : List Ballot) (b : Ballot) → voters (bs ++ b ∷ []) ≡ voters bs ++ b.0 ∷ []
voters-snoc [] b = refl
voters-snoc (x ∷ bs) b = ap (◌∷◌ x.0) (voters-snoc bs b)

pub InRange-snoc :
    (n : ℕ) (bs : List Ballot) (a name : String) (i : ℕ)
    → i < n
    → InRange n bs
    → InRange n (bs ++ (a, name, i) ∷ [])
InRange-snoc n [] a name i h r = (h, tt)
InRange-snoc n ((_, _, _) ∷ bs) a name i h r = (r.0, InRange-snoc n bs a name i h r.1)

AllEligible-snoc :
    (agents : List String) (bs : List Ballot) (b : Ballot)
    → contains agents b.0 ≡ true
    → AllEligible agents bs
    → AllEligible agents (bs ++ b ∷ [])
AllEligible-snoc agents [] b h r = (h, tt)
AllEligible-snoc agents (x ∷ bs) b h r = (r.0, AllEligible-snoc agents bs b h r.1)

-- The vote with one more ballot.
abbrev pub with_ballot : ActiveVote → String → String → ℕ → ActiveVote
with_ballot v a name i = record v { ballots = v.ballots ++ (a, name, i) ∷ [] }

module _ (v : ActiveVote) (a name : String) (i : ℕ) where
  -- What `cast_vote` asks of a ballot.
  pub record IsValid : Type 0 where
    pub option : i < length v.options
    pub right : contains v.eligible_agents a ≡ true
    pub fresh : has_voted v.ballots a ≡ false

  with_ballot-length : length (with_ballot v a name i).ballots ≡ length v.ballots + 1
  with_ballot-length = length-append v.ballots ((a, name, i) ∷ [])

  -- A vote that takes a valid ballot, and still waits for more, is a vote in order.
  pub with_ballot-IsPoll :
      IsPoll v
      → IsValid
      → length v.ballots + 1 < v.eligible_voters
      → IsPoll (with_ballot v a name i)
  with_ballot-IsPoll p q lt = record {
    in_range = InRange-snoc (length v.options) v.ballots a name i q.option p.in_range;
    single = rw (voters-snoc v.ballots (a, name, i)) (
        IsDistinct-snoc (voters v.ballots) a (sym (has_voted-voters v.ballots a) ∙ q.fresh)
          p.single);
    eligible = AllEligible-snoc v.eligible_agents v.ballots (a, name, i) q.right p.eligible;
    unfinished = omega (arith, with_ballot-length);
  }

abbrev pub voted : Polls → String → ActiveVote → Polls
voted p id w = record p { manager = with_votes p.manager (insert p.manager.active_votes id w) }

-- A valid ballot is counted; it closes the vote if it is the last.
pub cast_vote-valid :
    (p : Polls) (id a name : String) (i : ℕ) (v : ActiveVote)
    → get p.manager.active_votes id ≡ some v
    → IsValid v a name i
    → cast_vote p id a name i ≡ (
      if leb v.eligible_voters (length v.ballots + 1)
          then finish (voted p id (with_ballot v a name i)) id
          else voted p id (with_ballot v a name i),
      done (length v.ballots + 1, v.eligible_voters),
    )
unfolding cast_vote
cast_vote-valid p id a name i v e q =
    ground (arith, with_ballot-length v a name i, q.option, q.right, q.fresh)

-- A ballot that is refused changes nothing.
pub cast_vote-refused :
    (p : Polls) (id a name : String) (i : ℕ) (code : ErrorCode)
    → (cast_vote p id a name i).1 ≡ failed code
    → (cast_vote p id a name i).0 ≡ p
unfolding cast_vote
cast_vote-refused p id a name i code h = ground arith
