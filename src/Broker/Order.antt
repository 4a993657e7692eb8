-- ===== src/Broker/Order.antt =====
-- Places in the join order.
use clawdchat.Base.{
  ℕ, suc, zero, ◌+◌, ◌%◌, ◌<◌, String, ◌≡◌, refl, ite, true, false, Option, none, some, List, [],
  ◌∷◌, ◌∙◌, arith, dec_eq, length, get_elem?, contains, IsDistinct, contains-get_elem?,
  get_elem?-lt,
}
use clawdchat.Broker.{position, next_after}

-- `position` finds a place in range that holds the text.
pub position-lt : (xs : List String) (a : String) {i : ℕ} → position xs a ≡ some i → i < length xs
unfolding position
position-lt [] a h = cc
position-lt (x ∷ xs) a {i} h = go (position xs a) (λ j e. position-lt xs a {i = j} e) h
  where
    go :
        (o : Option ℕ)
        → ((j : ℕ) → o ≡ some j → j < length xs)
        → ite (dec_eq x a) (some 0) (elim o [ none ↦ none | some j ↦ some (suc j) ]) ≡ some i
        → i < suc (length xs)
    go none ih e = ground arith
    go (some j) ih e = ground (arith, ih j)

-- With no text twice, `position` is the inverse of indexing.
pub position-get_elem? :
    (xs : List String) (i : ℕ) (a : String)
    → IsDistinct xs
    → get_elem? xs i ≡ some a
    → position xs a ≡ some i
unfolding position contains
position-get_elem? [] i a d h = cc
position-get_elem? (x ∷ xs) zero a d h = ground arith
position-get_elem? (x ∷ xs) (suc i) a d h =
    ground (arith, position-get_elem? xs i a d.1, contains-get_elem? xs i a h)

pub position-none : (xs : List String) (a : String) → contains xs a ≡ false → position xs a ≡ none
unfolding position contains
position-none [] a h = refl
position-none (x ∷ xs) a h = ground (arith, position-none xs a)

module _ (xs : List String) (a : String) where
  pub next_after-some :
      (i : ℕ) → position xs a ≡ some i → next_after xs a ≡ get_elem? xs ((i + 1) % length xs)
  unfolding next_after
  next_after-some i e = rw (e, next_after)

  pub next_after-none : position xs a ≡ none → next_after xs a ≡ get_elem? xs 0
  unfolding next_after
  next_after-none e = rw (e, next_after)

  -- A next one that is a member.
  abbrev pub Next : Type 0
  Next = (n : String) × (next_after xs a ≡ some n) × (contains xs n ≡ true)

  at_index : (i : ℕ) → i < length xs → next_after xs a ≡ get_elem? xs i → Next
  at_index i h e = let (n, p) = get_elem?-lt xs i h in (n, e ∙ p, contains-get_elem? xs i n p)

  -- In a room with members there is always a next one.
  pub next_after-member : 0 < length xs → Next
  next_after-member h = go (position xs a) refl
    where
      go : (o : Option ℕ) → position xs a ≡ o → Next
      go none e = at_index 0 h (next_after-none e)
      go (some i) e = at_index ((i + 1) % length xs) (omega arith) (next_after-some i e)
