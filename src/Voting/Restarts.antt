-- ===== src/Voting/Restarts.antt =====
-- A new vote manager has the open votes of its store, and no others.
use clawdchat.Base.{
  String, ◌≡◌, refl, sym, ap, ◌∙◌, Bool, true, false, ◌&&◌, or_else, Option, none, some, List, [],
  ◌∷◌, any, map, keep, same, dec_eq, arith, if◌then◌else◌, Bool-cases, inl, inr,
}
use clawdchat.Base.Sorting.{sort, any-sort}
use clawdchat.Map.{Map, get, empty, insert, get-insert, get-empty, values}
use clawdchat.Map.Listing.{All, All-sort, All-keep, All-values, any-values}
use clawdchat.Store.Schema.{Store, ok, VoteMeta, BallotRow, EligibleRow, query}
use clawdchat.Store.Ballots.{get_vote_ballots, get_vote_eligible_agents}
use clawdchat.Store.Listings.{list_open_votes, by_creation}
use clawdchat.Voting.Polls.{ActiveVote}
use clawdchat.Voting.Restore.{restored, restore_each, restore_listed, reopen}

-- The table of votes is keyed by their ids.
abbrev pub IsKeyed : Store → Type 0
IsKeyed s = (k : String) (m : VoteMeta) → get s.votes k ≡ some m → m.vote_id ≡ k

abbrev has_id : String → VoteMeta → Bool
has_id id m = same m.vote_id id

-- A row of the vote `id` can only be `meta`.
abbrev Agrees : String → VoteMeta → VoteMeta → Type 0
Agrees id meta m = m.vote_id ≡ id → m ≡ meta

get-restore_each :
    (votes : Map ActiveVote) (s : Store) (ms : List VoteMeta) (id : String) (meta : VoteMeta)
    → All (Agrees id meta) ms
    → get (restore_each votes s ms) id
      ≡ (if any (has_id id) ms then some (restored s meta) else get votes id)
unfolding restore_each any
get-restore_each votes s [] id meta h = refl
get-restore_each votes s (m ∷ ms) id meta (h, hs) =
    let next = insert votes m.vote_id (restored s m) in
    let rest = get-restore_each next s ms id meta hs in
    let first = get-insert votes m.vote_id (restored s m) id in
    elim (dec_eq m.vote_id id) [
      | yes e ↦ ground (arith, rest, first, e, ap (restored s) (h e))
      | no n ↦ ground (arith, rest, first, n)
    ]

get-none :
    (votes : Map ActiveVote) (s : Store) (ms : List VoteMeta) (id : String)
    → any (has_id id) ms ≡ false
    → get (restore_each votes s ms) id ≡ get votes id
unfolding restore_each any
get-none votes s [] id h = refl
get-none votes s (m ∷ ms) id h = ground (
  arith,
  h,
  get-none (insert votes m.vote_id (restored s m)) s ms id,
  get-insert votes m.vote_id (restored s m) id,
)

-- What is open under an id, by the row that the store has for it.
abbrev reopened : Store → Option VoteMeta → Option ActiveVote
reopened s none = none
reopened s (some meta) = if same meta.status "open" then some (restored s meta) else none

abbrev is_open : VoteMeta → Bool
is_open m = same m.status "open"

open_rows : Store → List VoteMeta
open_rows s = sort by_creation (keep is_open (values s.votes))

any_both :
    (p q : VoteMeta → Bool) (xs : List VoteMeta) → any p (keep q xs) ≡ any (λ x. p x && q x) xs
unfolding any keep
any_both p q [] = refl
any_both p q (x ∷ xs) = ground (arith, any_both p q xs)

any_never :
    (p : VoteMeta → Bool) (xs : List VoteMeta) → All (λ x. p x ≡ false) xs → any p xs ≡ false
unfolding any
any_never p [] h = refl
any_never p (x ∷ xs) h = ground (arith, h.0, any_never p xs h.1)

any-open_rows :
    (s : Store) (id : String)
    → any (has_id id) (open_rows s) ≡ any (λ m. has_id id m && is_open m) (values s.votes)
unfolding open_rows
any-open_rows s id =
    any-sort (has_id id) by_creation (keep is_open (values s.votes))
    ∙ any_both (has_id id) is_open (values s.votes)

-- What holds of the row of `id`, if there is one, decides whether such a row is open.
any_absent :
    (s : Store) (id : String)
    → IsKeyed s
    → ((m : VoteMeta) → get s.votes id ≡ some m → is_open m ≡ false)
    → any (has_id id) (open_rows s) ≡ false
any_absent s id keyed h =
    any-open_rows s id
    ∙ any_never (λ m. has_id id m && is_open m) (values s.votes)
        (All-values (λ m. (has_id id m && is_open m) ≡ false) s.votes
          (λ k v e. elim (dec_eq v.vote_id id) [
            | yes q ↦ ground (arith, h v (ap (get s.votes) (sym q ∙ keyed k v e) ∙ e))
            | no n ↦ ground (arith, n)
          ]))

any_present :
    (s : Store) (id : String) (meta : VoteMeta)
    → IsKeyed s
    → get s.votes id ≡ some meta
    → is_open meta ≡ true
    → any (has_id id) (open_rows s) ≡ true
any_present s id meta keyed e opened =
    any-open_rows s id
    ∙ any-values (λ m. has_id id m && is_open m) s.votes id meta e
        (ground (arith, keyed id meta e, opened))

rows_agree :
    (s : Store) (id : String) (meta : VoteMeta)
    → IsKeyed s
    → get s.votes id ≡ some meta
    → All (Agrees id meta) (open_rows s)
unfolding open_rows
rows_agree s id meta keyed e =
    All-sort (Agrees id meta) by_creation (keep is_open (values s.votes)) (
      All-keep (Agrees id meta) is_open (values s.votes) (
        All-values (Agrees id meta) s.votes (λ k v found same_id.
          one_value v meta (sym found ∙ ap (get s.votes) (sym (keyed k v found) ∙ same_id) ∙ e))))
  where
    one_value : (v w : VoteMeta) → some v ≡ some w → v ≡ w
    one_value v w h = ap (λ o. or_else o v) h

restored_at :
    (s : Store) (id : String) (o : Option VoteMeta)
    → IsKeyed s
    → get s.votes id ≡ o
    → get (restore_each empty s (open_rows s)) id ≡ reopened s o
restored_at s id none keyed e =
    get-none empty s (open_rows s) id (any_absent s id keyed (λ m f. ground (arith, e, f)))
    ∙ get-empty id
restored_at s id (some meta) keyed e =
    get-restore_each empty s (open_rows s) id meta (rows_agree s id meta keyed e)
    ∙ elim (Bool-cases (is_open meta)) [
      | inl opened ↦ ground (arith, any_present s id meta keyed e opened, opened)
      | inr shut ↦ ground (
        arith,
        any_absent s id keyed (λ m f. ap is_open (ap (λ o. or_else o m) (sym f ∙ e)) ∙ shut),
        shut,
        get-empty {V = ActiveVote} id,
      )
    ]

-- The vote of a row: the row's own fields, and of the tables of ballots and of eligible agents the rows
-- that name it, in their order.
abbrev pub vote_of : Store → VoteMeta → ActiveVote
vote_of s meta = record {
  vote_id = meta.vote_id;
  room_id = meta.room_id;
  title = meta.title;
  description = meta.description;
  options = meta.options;
  created_by = meta.created_by;
  created_at = meta.created_at;
  closes_at = meta.closes_at;
  ballots =
      map (λ (row : BallotRow). (row.agent_id, row.agent_name, row.option_index))
        (keep (λ row. same row.vote_id meta.vote_id) s.vote_ballots);
  eligible_voters = meta.eligible_voters;
  eligible_agents =
      map (λ (row : EligibleRow). row.agent_id)
        (keep (λ row. same row.vote_id meta.vote_id) s.vote_eligible_agents);
  is_ephemeral = false;
}

-- Nothing without a row, or where the row says that the vote is closed.
abbrev pub open_of : Store → Option VoteMeta → Option ActiveVote
open_of s none = none
open_of s (some meta) = if same meta.status "open" then some (vote_of s meta) else none

restored-vote_of :
    (s : Store) (meta : VoteMeta) → s.available ≡ true → restored s meta ≡ vote_of s meta
unfolding restored get_vote_ballots get_vote_eligible_agents
restored-vote_of s meta up = rw up refl

reopened-open_of :
    (s : Store) (o : Option VoteMeta) → s.available ≡ true → reopened s o ≡ open_of s o
reopened-open_of s none up = refl
reopened-open_of s (some meta) up = rw (restored-vote_of s meta up) refl

-- If the table of votes is keyed by their ids and the database is up, then a new vote manager has a
-- vote open under an id exactly when the store has a row with that id whose status is open; and the
-- vote has that row's text, options, deadline and size of the electorate, and the ballots and the
-- eligible agents of the rows of the other tables that name it, in their order.
pub get-reopen :
    (s : Store) (id : String)
    → IsKeyed s
    → s.available ≡ true
    → get (reopen s).active_votes id ≡ open_of s (get s.votes id)
unfolding reopen restore_listed list_open_votes open_rows
get-reopen s id keyed up =
    ap (λ r. get (restore_listed s r) id) (up_query s (open_rows s) up)
    ∙ restored_at s id (get s.votes id) keyed refl
    ∙ reopened-open_of s (get s.votes id) up
  where
    up_query : (s : Store) (a : List VoteMeta) → s.available ≡ true → query s a ≡ ok a
    up_query s a up = rw up refl
