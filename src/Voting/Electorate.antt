-- ===== src/Voting/Electorate.antt =====
-- Which agents have a row for a vote once a store has been opened.
use clawdchat.Base.{
  suc, ◌<◌, ◌≡◌, refl, ap, ◌∙◌, String, Bool, true, ◌&&◌, ◌||◌, not, List, [], ◌∷◌, any, map, keep,
  same, length, contains, dec_eq, if◌then◌else◌, arith, Bool-cases, inl, inr, any-append,
}
use clawdchat.Base.Sorting.{every}
use clawdchat.Map.{Map, get}
use clawdchat.Store.Schema.{VoteMeta, BallotRow, EligibleRow}
use clawdchat.Store.Startup.{has_row, admit, is_open, is_open_vote, admit_creators, admit_voters}
use clawdchat.Voting.Tally.{Ballot}

has_row-admit :
    (rows : List EligibleRow) (v a id who : String)
    → has_row (admit rows v a) id who ≡ (has_row rows id who || (same v id && same a who))
unfolding admit any
has_row-admit rows v a id who = ground (
  arith,
  any-append (λ (row : EligibleRow). same row.vote_id id && same row.agent_id who) rows
      (record { vote_id = v; agent_id = a } ∷ []),
)

has_row-creators_kept :
    (rows : List EligibleRow) (ms : List VoteMeta) (id who : String)
    → has_row rows id who ≡ true
    → has_row (admit_creators rows ms) id who ≡ true
unfolding admit_creators
has_row-creators_kept rows [] id who h = h
has_row-creators_kept rows (m ∷ ms) id who h =
    has_row-creators_kept (if is_open m then admit rows m.vote_id m.created_by else rows) ms id who
      (ground (arith, h, has_row-admit rows m.vote_id m.created_by id who))

pub has_row-voters_kept :
    (votes : Map VoteMeta) (rows : List EligibleRow) (bs : List BallotRow) (id who : String)
    → has_row rows id who ≡ true
    → has_row (admit_voters votes rows bs) id who ≡ true
unfolding admit_voters
has_row-voters_kept votes rows [] id who h = h
has_row-voters_kept votes rows (b ∷ bs) id who h =
    has_row-voters_kept votes
      (if is_open_vote (get votes b.vote_id) then admit rows b.vote_id b.agent_id else rows) bs id
      who (ground (arith, h, has_row-admit rows b.vote_id b.agent_id id who))

-- An open vote of the list that `who` created.
abbrev pub made_by : String → String → VoteMeta → Bool
made_by id who m = same m.vote_id id && (same m.created_by who && is_open m)

pub has_row-creator :
    (rows : List EligibleRow) (ms : List VoteMeta) (id who : String)
    → any (made_by id who) ms ≡ true
    → has_row (admit_creators rows ms) id who ≡ true
unfolding admit_creators any
has_row-creator rows [] id who h = ground (arith, h)
has_row-creator rows (m ∷ ms) id who h = elim (Bool-cases (made_by id who m)) [
  | inl e ↦
      has_row-creators_kept (if is_open m then admit rows m.vote_id m.created_by else rows) ms id
        who (ground (arith, e, has_row-admit rows m.vote_id m.created_by id who))
  | inr e ↦
      has_row-creator (if is_open m then admit rows m.vote_id m.created_by else rows) ms id who
        (ground (arith, e, h))
]

-- A ballot of another vote, or one of an agent with a row.
abbrev pub is_admitted : List EligibleRow → String → BallotRow → Bool
is_admitted rows id b = not (same b.vote_id id) || has_row rows id b.agent_id

pub every-is_admitted :
    (votes : Map VoteMeta) (rows : List EligibleRow) (bs : List BallotRow) (id : String)
    → is_open_vote (get votes id) ≡ true
    → every (is_admitted (admit_voters votes rows bs) id) bs ≡ true
unfolding admit_voters every
every-is_admitted votes rows [] id h = refl
every-is_admitted votes rows (b ∷ bs) id h =
    let next : List EligibleRow =
      if is_open_vote (get votes b.vote_id) then admit rows b.vote_id b.agent_id else rows in
    let rest = every-is_admitted votes next bs id h in
    elim (dec_eq b.vote_id id) [
      | yes e ↦
          let opened = ap (λ x. is_open_vote (get votes x)) e ∙ h in
          let here =
            has_row-voters_kept votes next bs id b.agent_id
              (ground (arith, opened, e, has_row-admit rows b.vote_id b.agent_id id b.agent_id)) in
          ground (arith, e, rest, here)
      | no n ↦ ground (arith, n, rest)
    ]

abbrev pub agents_of : List EligibleRow → String → List String
agents_of rows id =
    map (λ (row : EligibleRow). row.agent_id)
      (keep (λ (row : EligibleRow). same row.vote_id id) rows)

pub contains-agents_of :
    (rows : List EligibleRow) (id who : String)
    → contains (agents_of rows id) who ≡ has_row rows id who
unfolding contains keep any
contains-agents_of [] id who = refl
contains-agents_of (row ∷ rows) id who = ground (arith, contains-agents_of rows id who)

pub length-map : {A : Type 0} {B : Type 0} (f : A → B) (xs : List A) → length (map f xs) ≡ length xs
length-map f [] = refl
length-map f (x ∷ xs) = ap suc (length-map f xs)

pub nonempty : (xs : List String) (x : String) → contains xs x ≡ true → 0 < length xs
unfolding contains
nonempty [] x h = ground (arith, h)
nonempty (y ∷ ys) x h = omega arith

abbrev pub as_ballot : BallotRow → Ballot
as_ballot b = (b.agent_id, b.agent_name, b.option_index)

pub every-voted :
    (rows : List EligibleRow) (bs : List BallotRow) (id : String)
    → every (is_admitted rows id) bs ≡ true
    → every
        (λ (b : Ballot). contains (agents_of rows id) b.0)
        (map as_ballot (keep (λ (b : BallotRow). same b.vote_id id) bs))
      ≡ true
unfolding every keep
every-voted rows [] id h = refl
every-voted rows (b ∷ bs) id h =
    ground (arith, h, every-voted rows bs id, contains-agents_of rows id b.agent_id)
