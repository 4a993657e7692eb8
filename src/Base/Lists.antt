-- ===== src/Base/Lists.antt =====
-- Lists measured by native numbers, and lists of texts used as sets and as join orders.
use Prim.Native.Nat.{ℕ, zero, suc, ◌+◌, ◌<◌, ◌≤◌}
use Prim.Native.String.{String}
use mathlib.Core.Path.{◌≡◌, refl}
use mathlib.Core.Logic.{ite}
use mathlib.Core.Bool.{Bool, true, false, ◌||◌}
use mathlib.Core.List.{List, [], ◌∷◌, ◌++◌}
use mathlib.Core.Option.{Option, none, some}
use native.Mathlib.Omega.{arith}
use clawdchat.Base.Tests.{dec_eq, if◌then◌else◌}

module _ {ℓ} {A : Type ℓ} where
  abbrev pub length : List A → ℕ
  length [] = 0
  length (x ∷ xs) = suc (length xs)

  abbrev pub get_elem? : List A → ℕ → Option A
  get_elem? [] i = none
  get_elem? (x ∷ xs) zero = some x
  get_elem? (x ∷ xs) (suc i) = get_elem? xs i

  pub length-append : (xs ys : List A) → length (xs ++ ys) ≡ length xs + length ys
  length-append [] ys = omega arith
  length-append (x ∷ xs) ys = omega (arith, length-append xs ys)

  -- `xs.iter().filter(p)`.
  unfoldable pub keep : (A → Bool) → List A → List A
  keep p [] = []
  keep p (x ∷ xs) = let rest = keep p xs in if p x then x ∷ rest else rest

  pub length-keep-le : (p : A → Bool) (xs : List A) → length (keep p xs) ≤ length xs
  unfolding keep
  length-keep-le p [] = omega arith
  length-keep-le p (x ∷ xs) = ground (arith, length-keep-le p xs)

  -- `xs.iter().any(p)`.
  unfoldable pub any : (A → Bool) → List A → Bool
  any p [] = false
  any p (x ∷ xs) = p x || any p xs

  pub any-append : (p : A → Bool) (xs ys : List A) → any p (xs ++ ys) ≡ (any p xs || any p ys)
  unfolding any
  any-append p [] ys = refl
  any-append p (x ∷ xs) ys = ground (arith, any-append p xs ys)

-- `xs.iter().any(|x| x == a)`, and `contains` of a set.
unfoldable pub contains : List String → String → Bool
contains [] a = false
contains (x ∷ xs) a = ite (dec_eq x a) true (contains xs a)

-- `xs.retain(|x| x != a)`, and `remove` of a set.
unfoldable pub without : List String → String → List String
without [] a = []
without (x ∷ xs) a = let rest = without xs a in ite (dec_eq x a) rest (x ∷ rest)

-- `insert` of a set.
unfoldable pub adjoin : List String → String → List String
adjoin xs a = if contains xs a then xs else xs ++ a ∷ []

-- No text stands in the list twice.
abbrev pub IsDistinct : List String → Type 0
IsDistinct [] = Unit {0}
IsDistinct (x ∷ xs) = (contains xs x ≡ false) × IsDistinct xs

pub contains-append :
    (xs ys : List String) (a : String) → contains (xs ++ ys) a ≡ (contains xs a || contains ys a)
unfolding contains
contains-append [] ys a = refl
contains-append (x ∷ xs) ys a = ground (arith, contains-append xs ys a)

pub contains-snoc :
    (xs : List String) (b a : String)
    → contains (xs ++ b ∷ []) a ≡ (contains xs a || ite (dec_eq b a) true false)
unfolding contains
contains-snoc xs b a = ground (arith, contains-append xs (b ∷ []) a)

pub contains-adjoin :
    (xs : List String) (b a : String)
    → contains (adjoin xs b) a ≡ ite (dec_eq b a) true (contains xs a)
unfolding adjoin
contains-adjoin xs b a = ground (arith, contains-snoc xs b a)

pub contains-without :
    (xs : List String) (b a : String)
    → contains (without xs b) a ≡ ite (dec_eq b a) false (contains xs a)
unfolding contains without
contains-without [] b a = ground arith
contains-without (x ∷ xs) b a = ground (arith, contains-without xs b a)

pub IsDistinct-snoc :
    (xs : List String) (a : String)
    → contains xs a ≡ false
    → IsDistinct xs
    → IsDistinct (xs ++ a ∷ [])
unfolding contains
IsDistinct-snoc [] a h d = (refl, tt)
IsDistinct-snoc (x ∷ xs) a h d =
    (ground (arith, contains-snoc xs a x), IsDistinct-snoc xs a (ground arith) d.1)

pub IsDistinct-without : (xs : List String) (a : String) → IsDistinct xs → IsDistinct (without xs a)
unfolding without
IsDistinct-without [] a d = tt
IsDistinct-without (x ∷ xs) a d =
    ground (arith, IsDistinct-without xs a d.1, contains-without xs a x)

-- A member's place in the list.
pub contains-get_elem? :
    (xs : List String) (i : ℕ) (a : String) → get_elem? xs i ≡ some a → contains xs a ≡ true
unfolding contains
contains-get_elem? [] i a h = cc
contains-get_elem? (x ∷ xs) zero a h = ground arith
contains-get_elem? (x ∷ xs) (suc i) a h = ground (arith, contains-get_elem? xs i a h)

pub get_elem?-lt {ℓ} :
    {A : Type ℓ} (xs : List A) (i : ℕ) → i < length xs → (a : A) × (get_elem? xs i ≡ some a)
get_elem?-lt [] i h = elim h [ ]
get_elem?-lt (x ∷ xs) zero h = (x, refl)
get_elem?-lt (x ∷ xs) (suc i) h = get_elem?-lt xs i (omega arith)
