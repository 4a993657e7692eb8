-- ===== src/Voting/Turnout.antt =====
-- Votes as their ballots come in: what each ballot makes of the open votes, and when a vote ends.
use mathlib.Core.Path.{subst}
use clawdchat.Base.{
  ℕ, ◌+◌, String, ◌≡◌, refl, sym, ap, ◌∙◌, ite, if_pos, if_neg, Bool, true, false, ◌&&◌, not,
  Option, none, some, List, [], ◌∷◌, ◌++◌, length, contains, leb, ltb, if◌then◌else◌, arith, dec_eq,
  IsDistinct, length-append, Bool-cases, inl, inr, contains-snoc,
}
use clawdchat.Map.{get, insert, get-insert, get-remove}
use clawdchat.Core.Protocol.{vote_result, event, vote_result_body}
use clawdchat.Broker.{broadcast_to_room_all}
use clawdchat.Voting.Tally.{Ballot, InRange, total, total-tally}
use clawdchat.Voting.Polls.{
  ActiveVote, Polls, Outcome, with_votes, result_of, finish, cast_vote, has_voted,
  close_and_broadcast_vote,
}
use clawdchat.Voting.Closing.{
  InRange-snoc, cast_vote-valid, voted, IsPoll, IsPoll?, AllPolls, IsValid, AllEligible, voters,
  with_ballot, with_ballot-IsPoll, has_voted-voters, voters-snoc,
}

-- The rule for one ballot on one vote, apart from the table and the announcements.
abbrev pub accepts : ActiveVote → String → ℕ → Bool
accepts v a i =
    ltb i (length v.options) && (contains v.eligible_agents a && not (has_voted v.ballots a))

abbrev pub polled : String → String → ℕ → Option ActiveVote → Option ActiveVote
polled a name i none = none
polled a name i (some v) =
    if accepts v a i
    then if leb v.eligible_voters (length v.ballots + 1)
      then none
      else some (with_ballot v a name i)
    else some v

get-finish :
    (p : Polls) (id j : String)
    → get (finish p id).manager.active_votes j
      ≡ ite (dec_eq id j) none (get p.manager.active_votes j)
unfolding finish close_and_broadcast_vote with_votes
get-finish p id j = ground (arith, get-remove p.manager.active_votes id j)

module _ (p : Polls) (id a name : String) (i : ℕ) where
  recorded : ActiveVote → Polls
  recorded v = record p {
    manager = with_votes p.manager (insert p.manager.active_votes id (with_ballot v a name i));
  }

  get-recorded :
      (v : ActiveVote) (j : String)
      → get (recorded v).manager.active_votes j
        ≡ ite (dec_eq id j) (some (with_ballot v a name i)) (get p.manager.active_votes j)
  unfolding recorded with_votes
  get-recorded v j = get-insert p.manager.active_votes id (with_ballot v a name i) j

  get-cast_some :
      (v : ActiveVote) (j : String)
      → get p.manager.active_votes id ≡ some v
      → get (cast_vote p id a name i).0.manager.active_votes j
        ≡ ite (dec_eq id j) (polled a name i (some v)) (get p.manager.active_votes j)
  unfolding cast_vote recorded
  get-cast_some v j e = ground (
    arith,
    e,
    get-recorded v j,
    get-finish (recorded v) id j,
    length-append v.ballots ((a, name, i) ∷ []),
  )

  get-cast :
      (o : Option ActiveVote) (j : String)
      → get p.manager.active_votes id ≡ o
      → get (cast_vote p id a name i).0.manager.active_votes j
        ≡ ite (dec_eq id j) (polled a name i o) (get p.manager.active_votes j)
  unfolding cast_vote
  get-cast none j e = ground (arith, e)
  get-cast (some v) j e = get-cast_some v j e

-- Casting a ballot applies the rule for one ballot to the vote it names, and leaves every other vote
-- as it was.
pub get-cast_vote :
    (p : Polls) (id a name : String) (i : ℕ) (j : String)
    → get (cast_vote p id a name i).0.manager.active_votes j
      ≡ ite
          (dec_eq id j)
          (polled a name i (get p.manager.active_votes id))
          (get p.manager.active_votes j)
get-cast_vote p id a name i j = get-cast p id a name i (get p.manager.active_votes id) j refl

accepts-IsValid :
    (v : ActiveVote) (a name : String) (i : ℕ) → accepts v a i ≡ true → IsValid v a name i
accepts-IsValid v a name i h = record {
  option = ground arith;
  right = ground arith;
  fresh = ground arith;
}

IsPoll?-polled :
    (o : Option ActiveVote) (a name : String) (i : ℕ) → IsPoll? o → IsPoll? (polled a name i o)
IsPoll?-polled none a name i h = tt
IsPoll?-polled (some v) a name i h = elim (Bool-cases (accepts v a i)) [
  | inr n ↦ rw n h
  | inl y ↦ elim (Bool-cases (leb v.eligible_voters (length v.ballots + 1))) [
    | inl full ↦ rw (y, full) tt
    | inr open_still ↦
        rw (y, open_still)
          (with_ballot-IsPoll v a name i h (accepts-IsValid v a name i y) (ground arith))
  ]
]

IsPoll?-ite :
    (id j : String) (o o' : Option ActiveVote)
    → IsPoll? o
    → IsPoll? o'
    → IsPoll? (ite (dec_eq id j) o o')
IsPoll?-ite id j o o' h h' = elim (dec_eq id j) [
  | yes e ↦ rw (if_pos _ e) h
  | no n ↦ rw (if_neg _ n) h'
]

-- Whatever ballot is cast, a manager whose open votes are in order keeps them so: every ballot names
-- an option, comes from an eligible agent, no agent has two, and no open vote has all its ballots.
pub cast_vote-AllPolls :
    (p : Polls) (id a name : String) (i : ℕ)
    → AllPolls p.manager
    → AllPolls (cast_vote p id a name i).0.manager
cast_vote-AllPolls p id a name i h j =
    subst IsPoll? (sym (get-cast_vote p id a name i j))
      (IsPoll?-ite id j _ _ (IsPoll?-polled _ a name i (h id)) (h j))

-- One after the other, the ballots of a list.
abbrev pub cast_each : Polls → String → List Ballot → Polls
cast_each p id [] = p
cast_each p id ((a, name, i) ∷ bs) = cast_each (cast_vote p id a name i).0 id bs

-- None of the ballots comes from one of the agents.
abbrev IsApart : List String → List Ballot → Type 0
IsApart names [] = Unit {0}
IsApart names (b ∷ bs) = (contains names b.0 ≡ false) × IsApart names bs

IsApart-nil : (bs : List Ballot) → IsApart [] bs
unfolding contains
IsApart-nil [] = tt
IsApart-nil (b ∷ bs) = (refl, IsApart-nil bs)

IsApart-snoc :
    (names : List String) (x : String) (bs : List Ballot)
    → contains (voters bs) x ≡ false
    → IsApart names bs
    → IsApart (names ++ x ∷ []) bs
unfolding contains
IsApart-snoc names x [] h r = tt
IsApart-snoc names x (b ∷ bs) h r = (
  ground (arith, contains-snoc names x b.0, r.0),
  IsApart-snoc names x bs (ground (arith, h)) r.1,
)

cast_each-none :
    (p : Polls) (id : String) (bs : List Ballot)
    → get p.manager.active_votes id ≡ none
    → get (cast_each p id bs).manager.active_votes id ≡ none
cast_each-none p id [] e = e
cast_each-none p id ((a, name, i) ∷ bs) e =
    cast_each-none (cast_vote p id a name i).0 id bs
      (ground (arith, e, get-cast_vote p id a name i id))

cast_rest :
    (p : Polls) (id : String) (v : ActiveVote) (b : Ballot) (bs : List Ballot)
    → get p.manager.active_votes id ≡ some v
    → InRange (length v.options) (b ∷ bs)
    → AllEligible v.eligible_agents (b ∷ bs)
    → IsApart (voters v.ballots) (b ∷ bs)
    → IsDistinct (voters (b ∷ bs))
    → length v.ballots + length (b ∷ bs) ≡ v.eligible_voters
    → get (cast_each p id (b ∷ bs)).manager.active_votes id ≡ none
cast_rest p id v (a, name, i) [] e r el apart di n =
    ground
      (arith, e, get-cast_vote p id a name i id, has_voted-voters v.ballots a, r.0, el.0, apart.0)
cast_rest p id v (a, name, i) (b ∷ bs) e r el apart di n =
    cast_rest (cast_vote p id a name i).0 id (with_ballot v a name i) b bs
      (ground (
        arith,
        e,
        get-cast_vote p id a name i id,
        has_voted-voters v.ballots a,
        r.0,
        el.0,
        apart.0,
      ))
      r.1 el.1
      (subst (λ (xs : List String). IsApart xs (b ∷ bs)) (sym (voters-snoc v.ballots (a, name, i)))
        (IsApart-snoc (voters v.ballots) a (b ∷ bs) di.0 apart.1))
      di.1 (ground (arith, n, length-append v.ballots ((a, name, i) ∷ [])))

-- When a vote that has no ballot yet gets a ballot for one of its options from each of its eligible
-- agents, in any order, it is closed.
pub everyone_votes :
    (p : Polls) (id : String) (v : ActiveVote) (b : Ballot) (bs : List Ballot)
    → get p.manager.active_votes id ≡ some v
    → v.ballots ≡ []
    → InRange (length v.options) (b ∷ bs)
    → AllEligible v.eligible_agents (b ∷ bs)
    → IsDistinct (voters (b ∷ bs))
    → length (b ∷ bs) ≡ v.eligible_voters
    → get (cast_each p id (b ∷ bs)).manager.active_votes id ≡ none
everyone_votes p id v b bs e none_yet r el di n =
    cast_rest p id v b bs e r el
      (subst (λ (xs : List Ballot). IsApart (voters xs) (b ∷ bs)) (sym none_yet)
        (IsApart-nil (b ∷ bs)))
      di (omega (arith, n, ap length none_yet))

finish-broker :
    (p : Polls) (id : String) (v : ActiveVote)
    → get p.manager.active_votes id ≡ some v
    → (finish p id).broker
      ≡ broadcast_to_room_all p.broker v.room_id
          (event vote_result (vote_result_body (result_of v)))
unfolding finish close_and_broadcast_vote
finish-broker p id v e = ground (arith, e)

get-voted :
    (p : Polls) (id : String) (v : ActiveVote) → get (voted p id v).manager.active_votes id ≡ some v
unfolding with_votes
get-voted p id v = ground (arith, get-insert p.manager.active_votes id v id)

total-result_of :
    (v : ActiveVote)
    → InRange (length v.options) v.ballots
    → total (result_of v).tally ≡ length v.ballots
unfolding result_of
total-result_of v r = total-tally v.options v.ballots r

-- A valid ballot that makes the electorate of a vote in order complete tells the room the result,
-- whose tally adds up to the number of eligible voters.
pub last_ballot :
    (p : Polls) (id a name : String) (i : ℕ) (v : ActiveVote)
    → get p.manager.active_votes id ≡ some v
    → IsPoll v
    → IsValid v a name i
    → length v.ballots + 1 ≡ v.eligible_voters
    → let w = with_ballot v a name i in
      ((cast_vote p id a name i).0.broker
        ≡ broadcast_to_room_all p.broker v.room_id
            (event vote_result (vote_result_body (result_of w))))
      × (total (result_of w).tally ≡ v.eligible_voters)
last_ballot p id a name i v e h q n =
    let w = with_ballot v a name i in
    (
      ap (λ (r : Polls × Outcome (ℕ × ℕ)). r.0.broker) (cast_vote-valid p id a name i v e q)
          ∙ ground (arith, n, finish-broker (voted p id w) id w (get-voted p id w)),
      total-result_of w (InRange-snoc (length v.options) v.ballots a name i q.option h.in_range)
          ∙ length-append v.ballots ((a, name, i) ∷ [])
          ∙ n,
    )
