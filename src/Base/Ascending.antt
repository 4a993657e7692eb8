-- ===== src/Base/Ascending.antt =====
-- Lists that ascend strictly in a number of their elements: what a filter, a page and a sort make
-- of them.
use Prim.Native.Nat.{ℕ, zero, suc, ◌<◌, ◌≤◌}
use mathlib.Core.Path.{◌≡◌, refl, sym, ◌∙◌}
use mathlib.Core.Bool.{Bool}
use mathlib.Core.List.{List, [], ◌∷◌, ◌++◌, map}
use native.Mathlib.Omega.{arith}
use clawdchat.Base.Tests.{ltb, leb}
use clawdchat.Base.Lists.{keep}
use clawdchat.Base.Sorting.{take, drop, place, sort}

module _ {ℓ} {A : Type ℓ} (key : A → ℕ) where
  -- Every element's number is above `n`.
  abbrev pub IsAbove : ℕ → List A → Type 0
  IsAbove n [] = Unit {0}
  IsAbove n (x ∷ xs) = (n < key x) × IsAbove n xs

  abbrev pub IsAscending : List A → Type 0
  IsAscending [] = Unit {0}
  IsAscending (x ∷ xs) = IsAbove (key x) xs × IsAscending xs

  abbrev pub IsAtMost : ℕ → List A → Type 0
  IsAtMost n [] = Unit {0}
  IsAtMost n (x ∷ xs) = (key x ≤ n) × IsAtMost n xs

  -- The test of `ORDER BY key`.
  abbrev pub by_key : A → A → Bool
  by_key x y = leb (key x) (key y)

  -- The test of `WHERE key > n`.
  abbrev pub beyond : ℕ → A → Bool
  beyond n x = ltb n (key x)

  -- The number of the last element, or `n` where there is none.
  abbrev pub last_key : ℕ → List A → ℕ
  last_key n [] = n
  last_key n (x ∷ xs) = last_key (key x) xs

  pub IsAbove-trans : (n k : ℕ) (xs : List A) → k ≤ n → IsAbove n xs → IsAbove k xs
  IsAbove-trans n k [] h a = tt
  IsAbove-trans n k (x ∷ xs) h a = (omega (arith, a.0), IsAbove-trans n k xs h a.1)

  IsAbove-keep : (n : ℕ) (p : A → Bool) (xs : List A) → IsAbove n xs → IsAbove n (keep p xs)
  unfolding keep
  IsAbove-keep n p [] a = tt
  IsAbove-keep n p (x ∷ xs) a = ground (arith, IsAbove-keep n p xs a.1)

  pub IsAscending-keep : (p : A → Bool) (xs : List A) → IsAscending xs → IsAscending (keep p xs)
  unfolding keep
  IsAscending-keep p [] a = tt
  IsAscending-keep p (x ∷ xs) a =
      ground (arith, IsAbove-keep (key x) p xs a.0, IsAscending-keep p xs a.1)

  pub IsAtMost-keep : (n : ℕ) (p : A → Bool) (xs : List A) → IsAtMost n xs → IsAtMost n (keep p xs)
  unfolding keep
  IsAtMost-keep n p [] a = tt
  IsAtMost-keep n p (x ∷ xs) a = ground (arith, IsAtMost-keep n p xs a.1)

  pub IsAtMost-trans : (n k : ℕ) (xs : List A) → n ≤ k → IsAtMost n xs → IsAtMost k xs
  IsAtMost-trans n k [] h a = tt
  IsAtMost-trans n k (x ∷ xs) h a = (omega (arith, a.0), IsAtMost-trans n k xs h a.1)

  pub IsAtMost-snoc :
      (n : ℕ) (x : A) (xs : List A) → IsAtMost n xs → key x ≤ n → IsAtMost n (xs ++ x ∷ [])
  IsAtMost-snoc n x [] a h = (h, tt)
  IsAtMost-snoc n x (y ∷ ys) a h = (a.0, IsAtMost-snoc n x ys a.1 h)

  IsAbove-snoc : (n : ℕ) (x : A) (xs : List A) → IsAbove n xs → n < key x → IsAbove n (xs ++ x ∷ [])
  IsAbove-snoc n x [] a h = (h, tt)
  IsAbove-snoc n x (y ∷ ys) a h = (a.0, IsAbove-snoc n x ys a.1 h)

  pub IsAscending-snoc :
      (n : ℕ) (x : A) (xs : List A)
      → IsAscending xs
      → IsAtMost n xs
      → n < key x
      → IsAscending (xs ++ x ∷ [])
  IsAscending-snoc n x [] a m h = (tt, tt)
  IsAscending-snoc n x (y ∷ ys) a m h =
      (IsAbove-snoc (key y) x ys a.0 (omega (arith, m.0)), IsAscending-snoc n x ys a.1 m.1 h)

  place-first : (x : A) (xs : List A) → IsAbove (key x) xs → place by_key x xs ≡ x ∷ xs
  unfolding place
  place-first x [] a = refl
  place-first x (y ∷ ys) a = ground (arith, a.0)

  -- An ascending list is sorted.
  pub sort_ascending : (xs : List A) → IsAscending xs → sort by_key xs ≡ xs
  unfolding sort
  sort_ascending [] a = refl
  sort_ascending (x ∷ xs) a = rw (sort_ascending xs a.1) (place-first x xs a.0)

  pub IsAbove-beyond : (n : ℕ) (xs : List A) → IsAbove n (keep (beyond n) xs)
  unfolding keep
  IsAbove-beyond n [] = tt
  IsAbove-beyond n (x ∷ xs) = ground (arith, IsAbove-beyond n xs)

  -- Filters by two floors: the higher one is left.
  keep-beyond-beyond :
      (n k : ℕ) (xs : List A) → n ≤ k → keep (beyond k) (keep (beyond n) xs) ≡ keep (beyond k) xs
  unfolding keep
  keep-beyond-beyond n k [] h = refl
  keep-beyond-beyond n k (x ∷ xs) h = ground (arith, keep-beyond-beyond n k xs h)

  keep_above : (n : ℕ) (xs : List A) → IsAbove n xs → keep (beyond n) xs ≡ xs
  unfolding keep
  keep_above n [] a = refl
  keep_above n (x ∷ xs) a = ground (arith, a.0, keep_above n xs a.1)

  last_key-le : (n : ℕ) (xs : List A) → IsAbove n xs → IsAscending xs → n ≤ last_key n xs
  last_key-le n [] a b = omega arith
  last_key-le n (x ∷ xs) a b = omega (arith, a.0, last_key-le (key x) xs b.0 b.1)

  IsAbove-take : (n k : ℕ) (xs : List A) → IsAbove k xs → IsAbove k (take n xs)
  IsAbove-take zero k xs a = tt
  IsAbove-take (suc n) k [] a = tt
  IsAbove-take (suc n) k (x ∷ xs) a = (a.0, IsAbove-take n k xs a.1)

  IsAscending-take : (n : ℕ) (xs : List A) → IsAscending xs → IsAscending (take n xs)
  IsAscending-take zero xs a = tt
  IsAscending-take (suc n) [] a = tt
  IsAscending-take (suc n) (x ∷ xs) a = (IsAbove-take n (key x) xs a.0, IsAscending-take n xs a.1)

  -- Beyond the last element of a page of an ascending list stands what the page leaves out.
  keep-last_key-take :
      (n k : ℕ) (xs : List A)
      → IsAbove k xs
      → IsAscending xs
      → keep (beyond (last_key k (take n xs))) xs ≡ drop n xs
  unfolding keep
  keep-last_key-take zero k xs a b = keep_above k xs a
  keep-last_key-take (suc n) k [] a b = refl
  keep-last_key-take (suc n) k (x ∷ xs) a b = ground (
    arith,
    keep-last_key-take n (key x) xs b.0 b.1,
    last_key-le (key x) (take n xs) (IsAbove-take n (key x) xs b.0) (IsAscending-take n xs b.1),
  )

  -- The next page begins after the last element of this one.
  pub next_page :
      (n k : ℕ) (xs : List A)
      → IsAscending xs
      → keep (beyond (last_key k (take n (keep (beyond k) xs)))) xs ≡ drop n (keep (beyond k) xs)
  next_page n k xs b =
      let rest = keep (beyond k) xs in
      let above = IsAbove-beyond k xs in
      let ascends = IsAscending-keep (beyond k) xs b in
      sym (
        keep-beyond-beyond k (last_key k (take n rest)) xs (
          last_key-le k (take n rest) (IsAbove-take n k rest above)
            (IsAscending-take n rest ascends)))
      ∙ keep-last_key-take n k rest above ascends

  IsAbove-map :
      (f : A → A) (n k : ℕ) (xs : List A)
      → ((x : A) → key (f x) ≡ key x)
      → k ≡ n
      → IsAbove n xs
      → IsAbove k (map f xs)
  IsAbove-map f n k [] h e a = tt
  IsAbove-map f n k (x ∷ xs) h e a = (omega (arith, h x, e, a.0), IsAbove-map f n k xs h e a.1)

  pub IsAscending-map :
      (f : A → A) (xs : List A)
      → ((x : A) → key (f x) ≡ key x)
      → IsAscending xs
      → IsAscending (map f xs)
  IsAscending-map f [] h a = tt
  IsAscending-map f (x ∷ xs) h a =
      (IsAbove-map f (key x) (key (f x)) xs h (h x) a.0, IsAscending-map f xs h a.1)

  pub IsAtMost-map :
      (f : A → A) (n : ℕ) (xs : List A)
      → ((x : A) → key (f x) ≡ key x)
      → IsAtMost n xs
      → IsAtMost n (map f xs)
  IsAtMost-map f n [] h a = tt
  IsAtMost-map f n (x ∷ xs) h a = (omega (arith, h x, a.0), IsAtMost-map f n xs h a.1)
