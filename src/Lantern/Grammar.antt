-- ===== src/Lantern/Grammar.antt =====
-- What a well-formed message is, by a table of what each verb has to say.
use package.text.Mathlib.Text.{starts_with}
use clawdchat.Base.{
  String, Bool, true, false, ◌&&◌, ◌||◌, not, Option, none, some, List, [], ◌∷◌, same, or_else,
  is_some, if◌then◌else◌,
}
use clawdchat.Base.Sorting.{every}
use clawdchat.Core.Json.{Json, null, get_field, get_str, as_i64}
use clawdchat.Lantern.Rules.{Std}

abbrev pub is_empty {ℓ} : {A : Type ℓ} → List A → Bool
is_empty [] = true
is_empty (x ∷ xs) = false

-- The texts of a verb's body that may not be blank.
abbrev pub texts_of : String → List String
texts_of verb =
    if same verb "PROBE"
    then "question" ∷ []
    else if same verb "ASSERT"
    then "claim" ∷ "falsifiable_by" ∷ []
    else if same verb "CHALLENGE"
    then "counter_claim" ∷ "test" ∷ []
    else if same verb "RESOLVE"
    then "observation" ∷ []
    else if same verb "FUSE"
    then "synthesis" ∷ []
    else if same verb "SPARK"
    then "seed" ∷ "why_now" ∷ "smallest_test" ∷ []
    else if same verb "BURY"
    then "reason" ∷ []
    else []

-- The numbers of a verb's body.
abbrev pub numbers_of : String → List String
numbers_of verb =
    if same verb "CHALLENGE"
    then "target_seq" ∷ []
    else if same verb "HARVEST" || same verb "BURY"
    then "spark_seq" ∷ []
    else []

-- The verbs and the bases that there are.
abbrev pub is_verb : String → Bool
is_verb v =
    same v "PROBE"
    || (same v "ASSERT"
        || (same v "CHALLENGE"
            || (same v "RESOLVE"
                || (same v "FUSE"
                    || (same v "SYNC"
                        || (same v "SPARK" || (same v "HARVEST" || same v "BURY")))))))

abbrev pub is_basis : String → Bool
is_basis b =
    same b "tool"
    || (same b "artifact" || (same b "human" || (same b "consensus" || same b "stale")))

abbrev pub named_basis : Option String → Bool
named_basis none = false
named_basis (some b) = is_basis b

abbrev pub body_of : Option Json → Json
body_of none = null
body_of (some b) = b

abbrev pub has_number : Json → String → Bool
has_number body k = is_some (as_i64 (get_field body k))

module _ (std : Std) where
  -- A text that holds more than blanks.
  abbrev pub says : Json → String → Bool
  says body k = elim (get_str body k) [ none ↦ false | some s ↦ not (same (std.trim s) "") ]

  abbrev pub number_in : Option Json → Option std.Float
  number_in none = none
  number_in (some j) = std.as_f64 j

  -- A confidence lies in [0, 1]; a challenge has one.
  abbrev pub is_staked : Bool → Option std.Float → Bool
  is_staked is_required none = not is_required
  is_staked is_required (some c) = std.at_most std.zero c && std.at_most c std.one

  abbrev pub confidence_ok : String → Json → Bool
  confidence_ok verb body =
      if same verb "CHALLENGE" || same verb "ASSERT"
      then is_staked (same verb "CHALLENGE") (number_in (get_field body "confidence"))
      else true

  abbrev pub basis_ok : String → Json → Bool
  basis_ok verb body = if same verb "RESOLVE" then named_basis (get_str body "basis") else true

  abbrev pub body_ok : String → Json → Bool
  body_ok verb body =
      every (says body) (texts_of verb)
      && (every (has_number body) (numbers_of verb)
          && (confidence_ok verb body && basis_ok verb body))

  -- What a message of a type has to say; the type is none where it is missing.
  abbrev pub typed_ok : Json → Option String → Bool
  typed_ok j none = false
  typed_ok j (some type) =
      if same type "HELLO"
      then not (same (or_else (get_str j "agent_name") "") "")
      else is_verb type
        && (not (same (or_else (get_str j "from") "") "")
            && body_ok type (body_of (get_field j "body")))

  -- A version of the protocol, and what the type asks for.
  abbrev pub is_well_formed : Json → Bool
  is_well_formed j =
      starts_with (or_else (get_str j "v") "") "lantern/" && typed_ok j (get_str j "type")
