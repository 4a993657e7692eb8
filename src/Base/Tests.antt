-- ===== src/Base/Tests.antt =====
-- Boolean tests on native numbers, branching on a Boolean, and the decision of equal texts.
use Prim.Native.Nat.{ℕ, compare, Ordering, ◌<◌}
use Prim.Native.String.{String, compare as compare_text}
use mathlib.Core.Path.{◌≡◌, refl}
use mathlib.Core.Logic.{◌⊎◌, inl, inr, ite}
use mathlib.Core.Bool.{Bool, true, false}
use mathlib.Core.Option.{Option, none, some}
use native.Mathlib.Omega.{arith}
use text.Mathlib.Text.{◌==◌}
use text.Mathlib.TextEquality.{eq_iff}

abbrev pub ltb : ℕ → ℕ → Bool
ltb a b = elim (compare a b) [ Ordering.lt ↦ true | _ ↦ false ]

abbrev pub leb : ℕ → ℕ → Bool
leb a b = elim (compare a b) [ Ordering.gt ↦ false | _ ↦ true ]

abbrev pub eqb : ℕ → ℕ → Bool
eqb a b = elim (compare a b) [ Ordering.eq ↦ true | _ ↦ false ]

infix 1 if◌then◌else◌
abbrev pub if◌then◌else◌ {ℓ} : {A : Type ℓ} → Bool → A → A → A
if true then x else y = x
if false then x else y = y

pub lt→ltb : (a b : ℕ) → a < b → ltb a b ≡ true
lt→ltb a b h = ground arith

pub Bool-cases : (b : Bool) → (b ≡ true) ⊎ (b ≡ false)
Bool-cases true = inl refl
Bool-cases false = inr refl

pub differ : (a b : String) → (a == b) ≡ false → ¬ (a ≡ b)
differ a b e p = ground (arith, (eq_iff a b).1 p)

-- Texts are compared by decisions, so that a branch has the equation at hand.
unfoldable pub dec_eq : (a b : String) → Dec (a ≡ b)
unfolding Bool-cases differ
dec_eq a b = elim (Bool-cases (a == b)) [
  | inl e ↦ yes ((eq_iff a b).0 e)
  | inr e ↦ no (differ a b e)
]

-- `a == b` and `a != b` on texts, as Booleans.
abbrev pub same : String → String → Bool
same a b = ite (dec_eq a b) true false

abbrev pub other : String → String → Bool
other a b = ite (dec_eq a b) false true

-- `a <= b` on texts, the order of their bytes.
abbrev pub text_leb : String → String → Bool
text_leb a b = elim (compare_text a b) [ Ordering.gt ↦ false | _ ↦ true ]

-- `o.as_deref() == Some(a)`.
abbrev pub is_some_of : Option String → String → Bool
is_some_of none a = false
is_some_of (some b) a = same b a

abbrev pub or_else {ℓ} : {A : Type ℓ} → Option A → A → A
or_else none a = a
or_else (some b) a = b

abbrev pub is_some {ℓ} : {A : Type ℓ} → Option A → Bool
is_some none = false
is_some (some b) = true
