-- ===== src/Lantern/Verdicts.antt =====
-- Which messages have no problem.
use clawdchat.Base.{
  ◌≡◌, ◌≢◌, refl, dec_eq, String, Bool, true, false, ◌&&◌, ◌||◌, not, Option, none, some, List, [],
  ◌∷◌, ◌++◌, contains, same, or_else, is_some, if◌then◌else◌, arith, Bool-cases, inl, inr,
}
use clawdchat.Base.Sorting.{every}
use clawdchat.Core.Json.{Json, get_str}
use clawdchat.Lantern.{or_null}
use clawdchat.Lantern.Rules.{
  Std, Problem, unnamed_agent, confidence_out_of_range, verbs, when, confidence_of,
  confidence_problems, check_confidence, names_basis, check_body, check_typed, validate,
}
use clawdchat.Lantern.Grammar.{
  is_empty, is_verb, named_basis, body_of, number_in, is_staked, body_ok, typed_ok, is_well_formed,
}

module _ (std : Std) where
  contains-verbs : (v : String) → contains verbs v ≡ is_verb v
  unfolding contains
  contains-verbs v = ground arith

  names_basis_lem : (o : Option String) → names_basis std o ≡ named_basis o
  unfolding contains
  names_basis_lem none = refl
  names_basis_lem (some b) = ground arith

  number_in_lem : (o : Option Json) → confidence_of std o ≡ number_in std o
  number_in_lem none = refl
  number_in_lem (some j) = refl

  or_null-body_of : (o : Option Json) → or_null o ≡ body_of o
  or_null-body_of none = refl
  or_null-body_of (some j) = refl

  empty-append : (xs ys : List Problem) → is_empty (xs ++ ys) ≡ (is_empty xs && is_empty ys)
  empty-append [] ys = refl
  empty-append (x ∷ xs) ys = refl

  empty-when : (b : Bool) (p : Problem) → is_empty (when (not b) p) ≡ b
  empty-when true p = refl
  empty-when false p = refl

  empty-confidence :
      (is_required : Bool) (o : Option Json)
      → is_empty (confidence_problems std (confidence_of std o) is_required)
        ≡ is_staked std is_required (number_in std o)
  empty-confidence true none = refl
  empty-confidence false none = refl
  empty-confidence is_required (some j) = of_number (std.as_f64 j)
    where
      of_number :
          (n : Option std.Float)
          → is_empty (confidence_problems std n is_required) ≡ is_staked std is_required n
      of_number none = ground arith
      of_number (some c) =
          empty-when (std.at_most std.zero c && std.at_most c std.one) confidence_out_of_range

  empty-probe : (body : Json) → is_empty (check_body std "PROBE" body) ≡ body_ok std "PROBE" body
  unfolding check_body check_confidence every clawdchat.Base.dec_eq
  empty-probe body = simp empty-when (ground arith)

  empty-assert : (body : Json) → is_empty (check_body std "ASSERT" body) ≡ body_ok std "ASSERT" body
  unfolding check_body check_confidence every clawdchat.Base.dec_eq
  empty-assert body = simp (empty-append, empty-when, empty-confidence) (ground arith)

  empty-challenge :
      (body : Json) → is_empty (check_body std "CHALLENGE" body) ≡ body_ok std "CHALLENGE" body
  unfolding check_body check_confidence every clawdchat.Base.dec_eq
  empty-challenge body = simp (empty-append, empty-when, empty-confidence) (ground arith)

  empty-resolve :
      (body : Json) → is_empty (check_body std "RESOLVE" body) ≡ body_ok std "RESOLVE" body
  unfolding check_body check_confidence every clawdchat.Base.dec_eq
  empty-resolve body = simp (empty-append, empty-when, names_basis_lem) (ground arith)

  empty-fuse : (body : Json) → is_empty (check_body std "FUSE" body) ≡ body_ok std "FUSE" body
  unfolding check_body check_confidence every clawdchat.Base.dec_eq
  empty-fuse body = simp empty-when (ground arith)

  empty-spark : (body : Json) → is_empty (check_body std "SPARK" body) ≡ body_ok std "SPARK" body
  unfolding check_body check_confidence every clawdchat.Base.dec_eq
  empty-spark body = simp (empty-append, empty-when) (ground arith)

  empty-harvest :
      (body : Json) → is_empty (check_body std "HARVEST" body) ≡ body_ok std "HARVEST" body
  unfolding check_body check_confidence every clawdchat.Base.dec_eq
  empty-harvest body = simp empty-when (ground arith)

  empty-bury : (body : Json) → is_empty (check_body std "BURY" body) ≡ body_ok std "BURY" body
  unfolding check_body check_confidence every clawdchat.Base.dec_eq
  empty-bury body = simp (empty-append, empty-when) (ground arith)

  -- Of the other verbs nothing is asked.
  empty-other :
      (verb : String) (body : Json)
      → verb ≢ "PROBE"
      → verb ≢ "ASSERT"
      → verb ≢ "CHALLENGE"
      → verb ≢ "RESOLVE"
      → verb ≢ "FUSE"
      → verb ≢ "SPARK"
      → verb ≢ "HARVEST"
      → verb ≢ "BURY"
      → is_empty (check_body std verb body) ≡ body_ok std verb body
  unfolding check_body every
  empty-other verb body a b c d e f g h = ground (arith, a, b, c, d, e, f, g, h)

  empty-check_body :
      (verb : String) (body : Json) → is_empty (check_body std verb body) ≡ body_ok std verb body
  empty-check_body verb body = elim (dec_eq verb "PROBE") [
    | yes e ↦ rw e (empty-probe body)
    | no n0 ↦ elim (dec_eq verb "ASSERT") [
      | yes e ↦ rw e (empty-assert body)
      | no n1 ↦ elim (dec_eq verb "CHALLENGE") [
        | yes e ↦ rw e (empty-challenge body)
        | no n2 ↦ elim (dec_eq verb "RESOLVE") [
          | yes e ↦ rw e (empty-resolve body)
          | no n3 ↦ elim (dec_eq verb "FUSE") [
            | yes e ↦ rw e (empty-fuse body)
            | no n4 ↦ elim (dec_eq verb "SPARK") [
              | yes e ↦ rw e (empty-spark body)
              | no n5 ↦ elim (dec_eq verb "HARVEST") [
                | yes e ↦ rw e (empty-harvest body)
                | no n6 ↦ elim (dec_eq verb "BURY") [
                  | yes e ↦ rw e (empty-bury body)
                  | no n7 ↦ empty-other verb body n0 n1 n2 n3 n4 n5 n6 n7
                ]
              ]
            ]
          ]
        ]
      ]
    ]
  ]

  empty-unless : (b : Bool) (p : Problem) → is_empty (when b p) ≡ not b
  empty-unless true p = refl
  empty-unless false p = refl

  empty-check_typed :
      (j : Json) (o : Option String) → is_empty (check_typed std j o) ≡ typed_ok std j o
  unfolding check_typed
  empty-check_typed j none = refl
  empty-check_typed j (some type) = elim (Bool-cases (same type "HELLO")) [
    | inl e ↦ rw e (empty-unless (same (or_else (get_str j "agent_name") "") "") unnamed_agent)
    | inr e ↦ rw e (
        simp
          (
            empty-append, empty-when, empty-unless, empty-check_body, contains-verbs,
            or_null-body_of,
          )
          refl)
  ]

  -- A message has no problem exactly when its version starts with "lantern/" and, if it is a
  -- greeting, its agent has a name; if not, when its type is one of the nine verbs, its sender has a
  -- name and its body has the texts and the numbers of that verb, no text blank, with a confidence
  -- in [0, 1] for a challenge and, where one is given, for an assertion, and with a known basis for a
  -- resolution.
  pub validate_lem : (j : Json) → is_empty (validate std j) ≡ is_well_formed std j
  unfolding validate
  validate_lem j = simp (empty-append, empty-when, empty-check_typed) refl
