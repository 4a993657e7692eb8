-- ===== src/Base/Rising.antt =====
-- Lists in the order of a number of their elements, which may repeat.
use Prim.Native.Nat.{ℕ}
use mathlib.Core.Path.{◌≡◌, refl, ◌∙◌}
use mathlib.Core.Bool.{Bool, true, false}
use mathlib.Core.Logic.{inl, inr}
use mathlib.Core.List.{List, [], ◌∷◌}
use native.Mathlib.Omega.{arith}
use clawdchat.Base.Tests.{Bool-cases, eqb}
use clawdchat.Base.Lists.{keep}
use clawdchat.Base.Sorting.{place, sort, every, every-place, every-weaken}
use clawdchat.Base.Ascending.{by_key}

module _ {ℓ} {A : Type ℓ} (key : A → ℕ) where
  -- Every element's number is at most those after it.
  abbrev pub IsRising : List A → Type 0
  IsRising [] = Unit {0}
  IsRising (x ∷ xs) = (every (by_key key x) xs ≡ true) × IsRising xs

  by_key_trans : (x y z : A) → by_key key x y ≡ true → by_key key y z ≡ true → by_key key x z ≡ true
  by_key_trans x y z h i = ground (arith, h, i)

  every-by_key :
      (x y : A) (ys : List A)
      → by_key key x y ≡ true
      → every (by_key key y) ys ≡ true
      → every (by_key key x) (y ∷ ys) ≡ true
  unfolding every
  every-by_key x y ys h i =
      ground (arith, h, every-weaken (by_key key y) (by_key key x) ys (λ z. by_key_trans x y z h) i)

  by_key-total : (x y : A) → by_key key x y ≡ false → by_key key y x ≡ true
  by_key-total x y h = ground (arith, h)

  IsRising-place : (x : A) (xs : List A) → IsRising xs → IsRising (place (by_key key) x xs)
  unfolding place every
  IsRising-place x [] h = (refl, tt)
  IsRising-place x (y ∷ ys) h = elim (Bool-cases (by_key key x y)) [
    | inl e ↦ rw e (every-by_key x y ys e h.0, h)
    | inr e ↦ rw e (
      every-place (by_key key y) (by_key key) x ys ∙ ground (arith, by_key-total x y e, h.0),
      IsRising-place x ys h.1,
    )
  ]

  pub IsRising-sort : (xs : List A) → IsRising (sort (by_key key) xs)
  unfolding sort
  IsRising-sort [] = tt
  IsRising-sort (x ∷ xs) = IsRising-place x (sort (by_key key) xs) (IsRising-sort xs)

  -- The test for a number.
  abbrev pub numbered : ℕ → A → Bool
  numbered n x = eqb (key x) n

  keep-place :
      (n : ℕ) (x : A) (xs : List A)
      → keep (numbered n) (place (by_key key) x xs) ≡ keep (numbered n) (x ∷ xs)
  unfolding keep place
  keep-place n x [] = refl
  keep-place n x (y ∷ ys) = ground (arith, keep-place n x ys)

  -- Sorting keeps the elements with one number as they are, in their order.
  pub keep-sort :
      (n : ℕ) (xs : List A) → keep (numbered n) (sort (by_key key) xs) ≡ keep (numbered n) xs
  unfolding keep sort
  keep-sort n [] = refl
  keep-sort n (x ∷ xs) = ground (arith, keep-place n x (sort (by_key key) xs), keep-sort n xs)
