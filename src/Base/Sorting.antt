-- ===== src/Base/Sorting.antt =====
-- `ORDER BY`, `LIMIT` and `reverse` on lists: a stable sort by a test of two elements, and lists that
-- ascend strictly in a number of their elements.
use Prim.Native.Nat.{ℕ, zero, suc, ◌≤◌}
use mathlib.Core.Path.{◌≡◌, refl, ap}
use mathlib.Core.Bool.{Bool, true, false, ◌||◌}
use mathlib.Core.List.{List, [], ◌∷◌, ◌++◌, map}
use native.Mathlib.Omega.{arith}
use clawdchat.Base.Tests.{if◌then◌else◌}
use clawdchat.Base.Lists.{length, keep, any}

module _ {ℓ} {A : Type ℓ} where
  abbrev pub take : ℕ → List A → List A
  take zero xs = []
  take (suc n) [] = []
  take (suc n) (x ∷ xs) = x ∷ take n xs

  abbrev pub drop : ℕ → List A → List A
  drop zero xs = xs
  drop (suc n) [] = []
  drop (suc n) (x ∷ xs) = drop n xs

  abbrev pub reverse : List A → List A
  reverse [] = []
  reverse (x ∷ xs) = reverse xs ++ x ∷ []

  -- `x` goes before the first element that it may precede.
  unfoldable pub place : (A → A → Bool) → A → List A → List A
  place le x [] = x ∷ []
  place le x (y ∷ ys) = let rest = place le x ys in if le x y then x ∷ y ∷ ys else y ∷ rest

  -- `ORDER BY`: the order of elements that may precede each other stays.
  unfoldable pub sort : (A → A → Bool) → List A → List A
  unfolding place
  sort le [] = []
  sort le (x ∷ xs) = place le x (sort le xs)

  pub take-drop : (n : ℕ) (xs : List A) → take n xs ++ drop n xs ≡ xs
  take-drop zero xs = refl
  take-drop (suc n) [] = refl
  take-drop (suc n) (x ∷ xs) = ap (◌∷◌ x) (take-drop n xs)

  pub length-take-le : (n : ℕ) (xs : List A) → length (take n xs) ≤ n
  length-take-le zero xs = omega arith
  length-take-le (suc n) [] = omega arith
  length-take-le (suc n) (x ∷ xs) = omega (arith, length-take-le n xs)

  any-place :
      (p : A → Bool) (le : A → A → Bool) (x : A) (xs : List A)
      → any p (place le x xs) ≡ (p x || any p xs)
  unfolding any place
  any-place p le x [] = refl
  any-place p le x (y ∷ ys) = ground (arith, any-place p le x ys)

  -- A sorted list has the same elements.
  pub any-sort : (p : A → Bool) (le : A → A → Bool) (xs : List A) → any p (sort le xs) ≡ any p xs
  unfolding any sort
  any-sort p le [] = refl
  any-sort p le (x ∷ xs) = ground (arith, any-place p le x (sort le xs), any-sort p le xs)

  pub any-take : (p : A → Bool) (n : ℕ) (xs : List A) → any p (take n xs) ≡ true → any p xs ≡ true
  unfolding any
  any-take p zero xs h = ground arith
  any-take p (suc n) [] h = h
  any-take p (suc n) (x ∷ xs) h = ground (arith, any-take p n xs)

  pub any-keep : (p q : A → Bool) (xs : List A) → any p (keep q xs) ≡ true → any p xs ≡ true
  unfolding any keep
  any-keep p q [] h = h
  any-keep p q (x ∷ xs) h = ground (arith, any-keep p q xs, h)

  -- `p` is true of all elements.
  unfoldable pub every : (A → Bool) → List A → Bool
  every p [] = true
  every p (x ∷ xs) = let rest = every p xs in if p x then rest else false

  pub every-append :
      (p : A → Bool) (xs ys : List A)
      → every p (xs ++ ys) ≡ (if every p xs then every p ys else false)
  unfolding every
  every-append p [] ys = refl
  every-append p (x ∷ xs) ys = ground (arith, every-append p xs ys)

  pub every-place :
      (p : A → Bool) (le : A → A → Bool) (x : A) (xs : List A)
      → every p (place le x xs) ≡ (if p x then every p xs else false)
  unfolding every place
  every-place p le x [] = refl
  every-place p le x (y ∷ ys) = ground (arith, every-place p le x ys)

  pub every-sort :
      (p : A → Bool) (le : A → A → Bool) (xs : List A) → every p (sort le xs) ≡ every p xs
  unfolding every sort
  every-sort p le [] = refl
  every-sort p le (x ∷ xs) = ground (arith, every-place p le x (sort le xs), every-sort p le xs)

  pub every-take :
      (p : A → Bool) (n : ℕ) (xs : List A) → every p xs ≡ true → every p (take n xs) ≡ true
  unfolding every
  every-take p zero xs h = refl
  every-take p (suc n) [] h = refl
  every-take p (suc n) (x ∷ xs) h = ground (arith, every-take p n xs)

  pub every-reverse : (p : A → Bool) (xs : List A) → every p (reverse xs) ≡ every p xs
  unfolding every
  every-reverse p [] = refl
  every-reverse p (x ∷ xs) =
      ground (arith, every-append p (reverse xs) (x ∷ []), every-reverse p xs)

  -- What is kept passes the test, and passes every test that all elements pass.
  pub every-keep : (p q : A → Bool) (xs : List A) → every p xs ≡ true → every p (keep q xs) ≡ true
  unfolding every keep
  every-keep p q [] h = refl
  every-keep p q (x ∷ xs) h = ground (arith, every-keep p q xs)

  pub every-keep_self : (p : A → Bool) (xs : List A) → every p (keep p xs) ≡ true
  unfolding every keep
  every-keep_self p [] = refl
  every-keep_self p (x ∷ xs) = ground (arith, every-keep_self p xs)

  pub keep-append : (p : A → Bool) (xs ys : List A) → keep p (xs ++ ys) ≡ keep p xs ++ keep p ys
  unfolding keep
  keep-append p [] ys = refl
  keep-append p (x ∷ xs) ys = ground (arith, keep-append p xs ys)

  pub keep-every : (p : A → Bool) (xs : List A) → every p xs ≡ true → keep p xs ≡ xs
  unfolding every keep
  keep-every p [] h = refl
  keep-every p (x ∷ xs) h = ground (arith, keep-every p xs)

  pub keep-map :
      (p : A → Bool) (f : A → A) (xs : List A)
      → ((x : A) → p (f x) ≡ p x)
      → keep p (map f xs) ≡ map f (keep p xs)
  unfolding keep
  keep-map p f [] h = refl
  keep-map p f (x ∷ xs) h = ground (arith, h x, keep-map p f xs h)

  pub keep_comm : (p q : A → Bool) (xs : List A) → keep p (keep q xs) ≡ keep q (keep p xs)
  unfolding keep
  keep_comm p q [] = refl
  keep_comm p q (x ∷ xs) = ground (arith, keep_comm p q xs)

  -- What is true of all elements of a list is true of all that are made of them, if making keeps it.
  pub every-map :
      (p : A → Bool) (f : A → A) (xs : List A)
      → ((x : A) → p (f x) ≡ p x)
      → every p (map f xs) ≡ every p xs
  unfolding every
  every-map p f [] h = refl
  every-map p f (x ∷ xs) h = ground (arith, h x, every-map p f xs h)

  -- What passes one test passes another that follows from it.
  pub every-weaken :
      (p q : A → Bool) (xs : List A)
      → ((x : A) → p x ≡ true → q x ≡ true)
      → every p xs ≡ true
      → every q xs ≡ true
  unfolding every
  every-weaken p q [] h e = refl
  every-weaken p q (x ∷ xs) h e = ground (arith, h x, every-weaken p q xs h)

  pub every-true : (p : A → Bool) (xs : List A) → ((x : A) → p x ≡ true) → every p xs ≡ true
  unfolding every
  every-true p [] h = refl
  every-true p (x ∷ xs) h = ground (arith, h x, every-true p xs h)
