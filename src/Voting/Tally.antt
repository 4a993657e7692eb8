-- ===== src/Voting/Tally.antt =====
-- How ballots are counted (`close_and_broadcast_vote`, and `build_vote_tally` of handler.rs).
use native.Mathlib.Nat.{add-zero}
use mathlib.Core.Path.{subst}
use clawdchat.Base.{
  ℕ, zero, suc, ◌+◌, ◌<◌, String, ◌≡◌, refl, ◌&&◌, Option, some, List, [], ◌∷◌, arith, or_else,
  length, get_elem?, if◌then◌else◌, eqb, leb, ltb, sym, ap, ◌∙◌,
}
use clawdchat.Core.Votes.{VoteTally}

-- The voter, the voter's name, and the option.
abbrev pub Ballot : Type 0
Ballot = String × String × ℕ

-- `vec![0; n]`.
unfoldable pub zeros {ℓ} : {A : Type ℓ} → List A → List ℕ
zeros [] = []
zeros (x ∷ xs) = 0 ∷ zeros xs

-- `if i < counts.len() { counts[i] += 1 }`.
unfoldable pub bump : List ℕ → ℕ → List ℕ
bump [] i = []
bump (c ∷ cs) zero = (c + 1) ∷ cs
bump (c ∷ cs) (suc i) = c ∷ bump cs i

unfoldable pub count_ballots : List ℕ → List Ballot → List ℕ
unfolding bump
count_ballots counts [] = counts
count_ballots counts ((_, _, i) ∷ bs) = count_ballots (bump counts i) bs

-- `counts[i]`; there is a count for every option.
abbrev pub count_at : List ℕ → ℕ → ℕ
count_at counts i = or_else (get_elem? counts i) 0

unfoldable pub tally_from : ℕ → List String → List ℕ → List VoteTally
tally_from i [] counts = []
tally_from i (text ∷ options) counts =
    record { option_index = i; option_text = text; count = count_at counts i }
    ∷ tally_from (suc i) options counts

unfoldable pub build_vote_tally : List String → List Ballot → List VoteTally
unfolding count_ballots tally_from zeros
build_vote_tally options ballots = tally_from 0 options (count_ballots (zeros options) ballots)

-- The ballots for an option, counted one by one.
pub votes_for : ℕ → List Ballot → ℕ
votes_for i [] = 0
votes_for i ((_, _, j) ∷ bs) = let rest = votes_for i bs in if eqb i j then rest + 1 else rest

pub total : List VoteTally → ℕ
total [] = 0
total (t ∷ ts) = t.count + total ts

-- Every ballot names an option of the vote.
abbrev pub InRange : ℕ → List Ballot → Type 0
InRange n [] = Unit {0}
InRange n ((_, _, i) ∷ bs) = (i < n) × InRange n bs

length-bump : (cs : List ℕ) (i : ℕ) → length (bump cs i) ≡ length cs
unfolding bump
length-bump [] i = refl
length-bump (c ∷ cs) zero = refl
length-bump (c ∷ cs) (suc i) = omega (arith, length-bump cs i)

length-zeros {ℓ} : {A : Type ℓ} (xs : List A) → length (zeros xs) ≡ length xs
unfolding zeros
length-zeros [] = refl
length-zeros (x ∷ xs) = omega (arith, length-zeros xs)

count_at-bump :
    (cs : List ℕ) (i j : ℕ)
    → j < length cs
    → count_at (bump cs j) i ≡ (if eqb i j then count_at cs i + 1 else count_at cs i)
unfolding bump
count_at-bump [] i j h = elim h [ ]
count_at-bump (c ∷ cs) zero zero h = refl
count_at-bump (c ∷ cs) zero (suc j) h = ground arith
count_at-bump (c ∷ cs) (suc i) zero h = ground arith
count_at-bump (c ∷ cs) (suc i) (suc j) h = ground (arith, count_at-bump cs i j)

count_at-ballots :
    (cs : List ℕ) (bs : List Ballot) (i : ℕ)
    → InRange (length cs) bs
    → count_at (count_ballots cs bs) i ≡ count_at cs i + votes_for i bs
unfolding count_ballots votes_for
count_at-ballots cs [] i r = omega arith
count_at-ballots cs ((a, n, j) ∷ bs) i r = ground (
  arith,
  count_at-bump cs i j,
  count_at-ballots (bump cs j) bs i (subst (λ m. InRange m bs) (sym (length-bump cs j)) r.1),
)

count_at-zeros {ℓ} : {A : Type ℓ} (xs : List A) (i : ℕ) → count_at (zeros xs) i ≡ 0
unfolding zeros
count_at-zeros [] i = refl
count_at-zeros (x ∷ xs) zero = refl
count_at-zeros (x ∷ xs) (suc i) = count_at-zeros xs i

-- The counts of `n` options from the `k`-th on, added up.
sum_range : (ℕ → ℕ) → ℕ → ℕ → ℕ
sum_range f k zero = 0
sum_range f k (suc n) = f k + sum_range f (suc k) n

total-tally_from :
    (f : ℕ → ℕ) (k : ℕ) (options : List String) (counts : List ℕ)
    → ((i : ℕ) → count_at counts i ≡ f i)
    → total (tally_from k options counts) ≡ sum_range f k (length options)
unfolding total tally_from sum_range
total-tally_from f k [] counts h = refl
total-tally_from f k (x ∷ options) counts h =
    omega (arith, h k, total-tally_from f (suc k) options counts h)

sum_range-zero : (k n : ℕ) → sum_range (λ i. votes_for i []) k n ≡ 0
unfolding sum_range votes_for
sum_range-zero k zero = refl
sum_range-zero k (suc n) = omega (arith, sum_range-zero (suc k) n)

sum_range-cons :
    (a name : String) (j : ℕ) (bs : List Ballot) (k n : ℕ)
    → sum_range (λ i. votes_for i ((a, name, j) ∷ bs)) k n
      ≡ sum_range (λ i. votes_for i bs) k n + (if leb k j && ltb j (k + n) then 1 else 0)
unfolding sum_range votes_for
sum_range-cons a name j bs k zero = ground arith
sum_range-cons a name j bs k (suc n) = ground (arith, sum_range-cons a name j bs (suc k) n)

sum_range-votes :
    (bs : List Ballot) (n : ℕ) → InRange n bs → sum_range (λ i. votes_for i bs) 0 n ≡ length bs
sum_range-votes [] n r = sum_range-zero 0 n
sum_range-votes ((a, name, j) ∷ bs) n r =
    ground (arith, sum_range-cons a name j bs 0 n, sum_range-votes bs n r.1)

counts-votes_for :
    (options : List String) (bs : List Ballot) (i : ℕ)
    → InRange (length options) bs
    → count_at (count_ballots (zeros options) bs) i ≡ votes_for i bs
counts-votes_for options bs i r =
    count_at-ballots (zeros options) bs i (subst (λ m. InRange m bs) (sym (length-zeros options)) r)
    ∙ omega (arith, count_at-zeros options i)

get_elem?-tally_from :
    (k : ℕ) (options : List String) (counts : List ℕ) (i : ℕ) (text : String)
    → get_elem? options i ≡ some text
    → get_elem? (tally_from k options counts) i
      ≡ some (record { option_index = k + i; option_text = text; count = count_at counts (k + i) })
unfolding tally_from
get_elem?-tally_from k [] counts i text h = cc
get_elem?-tally_from k (x ∷ options) counts zero text h = rw add-zero (ground arith)
get_elem?-tally_from k (x ∷ options) counts (suc i) text h =
    get_elem?-tally_from (suc k) options counts i text h
    ∙ ap (λ m. some (record { option_index = m; option_text = text; count = count_at counts m }))
        (omega arith)

pub total-tally :
    (options : List String) (bs : List Ballot)
    → InRange (length options) bs
    → total (build_vote_tally options bs) ≡ length bs
unfolding build_vote_tally
total-tally options bs r =
    total-tally_from (λ j. votes_for j bs) 0 options (count_ballots (zeros options) bs)
      (λ j. counts-votes_for options bs j r)
    ∙ sum_range-votes bs (length options) r

-- If every ballot names an option, the tally has an entry for each option, with the option's place,
-- its text and the number of the ballots for it, and the entries add up to the number of ballots.
pub tally_lem :
    (options : List String) (bs : List Ballot) (i : ℕ) (text : String)
    → InRange (length options) bs
    → get_elem? options i ≡ some text
    → (get_elem? (build_vote_tally options bs) i
        ≡ some (record { option_index = i; option_text = text; count = votes_for i bs }))
      × (total (build_vote_tally options bs) ≡ length bs)
unfolding build_vote_tally
tally_lem options bs i text r h =
    let counts = count_ballots (zeros options) bs in
    (
      get_elem?-tally_from 0 options counts i text h
          ∙ ap (entry text) (omega arith)
          ∙ ap (λ (n : ℕ). some (record { option_index = i; option_text = text; count = n }))
              (counts-votes_for options bs i r),
      total-tally options bs r,
    )
  where
    entry : String → ℕ → Option VoteTally
    entry text m = some (record {
      option_index = m;
      option_text = text;
      count = count_at (count_ballots (zeros options) bs) m;
    })
