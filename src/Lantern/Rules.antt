-- ===== src/Lantern/Rules.antt =====
-- Which messages are well formed. A problem's text is left out. Trimming, and floating-point numbers
-- with their order, are Rust's and parameters.
use package.text.Mathlib.Text.{starts_with}
use clawdchat.Base.{
  String, Bool, true, false, not, ◌&&◌, Option, none, some, List, [], ◌∷◌, ◌++◌, contains, same,
  or_else, is_some, if◌then◌else◌,
}
use clawdchat.Core.Json.{Json, get_field, get_str, as_i64}
use clawdchat.Lantern.{or_null}

pub data Problem : Type 0 where
  bad_version missing_type unnamed_agent missing_from bad_basis : Problem
  confidence_out_of_range confidence_not_staked : Problem
  unknown_verb : String → Problem
  required : String → Problem

abbrev pub verbs : List String
verbs =
    "PROBE" ∷ "ASSERT" ∷ "CHALLENGE" ∷ "RESOLVE" ∷ "FUSE" ∷ "SYNC" ∷ "SPARK" ∷ "HARVEST" ∷ "BURY"
    ∷ []

abbrev pub all_basis : List String
all_basis = "tool" ∷ "artifact" ∷ "human" ∷ "consensus" ∷ "stale" ∷ []

-- `if test { errs.push(p) }`.
abbrev pub when : Bool → Problem → List Problem
when true p = p ∷ []
when false p = []

pub record Std : Type 1 where
  pub trim : String → String
  pub Float : Type 0
  pub as_f64 : Json → Option Float
  pub at_most : Float → Float → Bool
  pub zero : Float
  pub one : Float

module _ (std : Std) where
  -- `s.trim().is_empty()`.
  abbrev pub is_blank : String → Bool
  is_blank s = same (std.trim s) ""

  abbrev pub has_text : Json → String → Bool
  has_text body k = elim (get_str body k) [ none ↦ false | some s ↦ not (is_blank s) ]

  abbrev pub needs : Json → String → List Problem
  needs body k = when (not (has_text body k)) (required k)

  abbrev pub needs_number : Json → String → List Problem
  needs_number body k = when (not (is_some (as_i64 (get_field body k)))) (required k)

  -- `body.get("confidence").and_then(|x| x.as_f64())`.
  abbrev pub confidence_of : Option Json → Option std.Float
  confidence_of none = none
  confidence_of (some j) = std.as_f64 j

  -- `(0.0..=1.0).contains(&c)`.
  abbrev pub in_unit : std.Float → Bool
  in_unit c = std.at_most std.zero c && std.at_most c std.one

  abbrev pub confidence_problems : Option std.Float → Bool → List Problem
  confidence_problems (some c) is_required = when (not (in_unit c)) confidence_out_of_range
  confidence_problems none is_required = when is_required confidence_not_staked

  unfoldable pub check_confidence : Json → Bool → List Problem
  check_confidence body is_required =
      confidence_problems (confidence_of (get_field body "confidence")) is_required

  abbrev pub names_basis : Option String → Bool
  names_basis none = false
  names_basis (some b) = contains all_basis b

  unfoldable pub check_body : String → Json → List Problem
  unfolding check_confidence
  check_body verb body =
      if same verb "PROBE"
      then needs body "question"
      else if same verb "ASSERT"
      then needs body "claim" ++ (needs body "falsifiable_by" ++ check_confidence body false)
      else if same verb "CHALLENGE"
      then needs_number body "target_seq"
        ++ (needs body "counter_claim" ++ (needs body "test" ++ check_confidence body true))
      else if same verb "RESOLVE"
      then needs body "observation" ++ when (not (names_basis (get_str body "basis"))) bad_basis
      else if same verb "FUSE"
      then needs body "synthesis"
      else if same verb "SPARK"
      then needs body "seed" ++ (needs body "why_now" ++ needs body "smallest_test")
      else if same verb "HARVEST"
      then needs_number body "spark_seq"
      else if same verb "BURY"
      then needs_number body "spark_seq" ++ needs body "reason"
      else []

  unfoldable pub check_typed : Json → Option String → List Problem
  unfolding check_body
  check_typed j none = missing_type ∷ []
  check_typed j (some verb) =
      if same verb "HELLO"
      then when (same (or_else (get_str j "agent_name") "") "") unnamed_agent
      else when (not (contains verbs verb)) (unknown_verb verb)
        ++ (when (same (or_else (get_str j "from") "") "") missing_from
            ++ check_body verb (or_null (get_field j "body")))

  unfoldable pub validate : Json → List Problem
  unfolding check_typed
  validate j =
      when (not (starts_with (or_else (get_str j "v") "") "lantern/")) bad_version
      ++ check_typed j (get_str j "type")
