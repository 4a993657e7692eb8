-- ===== src/Client/Rising.antt =====
-- The first element that is wanted of a page of a sorted list.
use mathlib.Core.Path.{subst}
use mathlib.Core.Option.{some-injective}
use clawdchat.Base.{
  ℕ, zero, suc, ◌≡◌, refl, Bool, true, ◌&&◌, not, Option, none, some, List, [], ◌∷◌, ltb, arith,
  Bool-cases, inl, inr,
}
use clawdchat.Base.Sorting.{take, every, every-weaken}
use clawdchat.Base.Ascending.{by_key}
use clawdchat.Client.{first}
use clawdchat.Base.Rising.{IsRising}

module _ {ℓ} {A : Type ℓ} (key : A → ℕ) where
  -- An element that `p` wants and whose number is below `n`.
  abbrev pub precedes : (A → Bool) → ℕ → A → Bool
  precedes p n x = p x && ltb (key x) n

  first_precedes :
      (p : A → Bool) (x : A) (xs : List A)
      → every (by_key key x) xs ≡ true
      → every (λ y. not (precedes p (key x) y)) (x ∷ xs) ≡ true
  unfolding every
  first_precedes p x xs h = ground (
    arith,
    every-weaken (by_key key x) (λ y. not (precedes p (key x) y)) xs (λ y i. ground (arith, i)) h,
  )

  abbrev pub key_at : Option A → Option ℕ
  key_at none = none
  key_at (some x) = some (key x)

  pub none-precedes :
      (p : A → Bool) (k : ℕ) (xs : List A) (n : ℕ)
      → IsRising key xs
      → key_at (first p (take k xs)) ≡ some n
      → every (λ x. not (precedes p n x)) xs ≡ true
  unfolding every
  none-precedes p zero xs n h e = ground (arith, e)
  none-precedes p (suc k) [] n h e = refl
  none-precedes p (suc k) (x ∷ xs) n h e = elim (Bool-cases (p x)) [
    | inl q ↦
        subst (λ i. every (λ z. not (precedes p i z)) (x ∷ xs) ≡ true)
          (some-injective (key x) n (ground (arith, e, q))) (first_precedes p x xs h.0)
    | inr q ↦ ground (arith, e, q, none-precedes p k xs n h.1)
  ]
