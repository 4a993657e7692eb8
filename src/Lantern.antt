-- ===== src/Lantern.antt =====
-- crates/clawchat-cli/src/lantern.rs: structured reasoning inside message contents. `from_str` is
-- serde's parser of JSON. Negative numbers of threads are not modelled, nor is the calibration, which
-- sums logarithms of floating-point numbers.
pub mod Rules
pub mod Threads
pub mod Grouping
pub mod Contents
pub mod Messages
pub mod Wire
pub mod Grammar
pub mod Verdicts
use package.text.Mathlib.Text.{starts_with}
use clawdchat.Base.{
  ℕ, String, Bool, true, false, Option, none, some, List, [], ◌∷◌, same, if◌then◌else◌,
}
use clawdchat.Core.Json.{
  Json, null, text, array, Items, nil, cons, get_field, as_str, get_str, as_i64,
}

pub record Envelope : Type 0 where
  pub v : String
  pub verb : String
  pub thread : Option ℕ
  pub reply_to : Option ℕ
  pub from : String
  pub intent : Option String
  pub body : Json

pub record Capability : Type 0 where
  pub name : String
  pub falsifiable_by : Option String

pub record Hello : Type 0 where
  pub v : String
  pub verb : String
  pub agent_name : String
  pub provider : Option String
  pub model : Option String
  pub role : Option String
  pub capabilities : List Capability
  pub attestation : Json

pub data Parsed : Type 0 where
  hello : Hello → Parsed
  verb : Envelope → Parsed

-- A chain of fields that must decode.
abbrev pub and_then {ℓ ℓ'} : {A : Type ℓ} {B : Type ℓ'} → Option A → (A → Option B) → Option B
and_then none f = none
and_then (some a) f = f a

-- An optional text: absent or null, a text, or an error.
abbrev pub text_or_absent : Option Json → Option (Option String)
text_or_absent none = some none
text_or_absent (some null) = some none
text_or_absent (some (text s)) = some (some s)
text_or_absent (some _) = none

abbrev pub present {ℓ} : {A : Type ℓ} → Option A → Option (Option A)
present none = none
present (some a) = some (some a)

-- An optional number.
abbrev pub int_or_absent : Option Json → Option (Option ℕ)
int_or_absent none = some none
int_or_absent (some null) = some none
int_or_absent (some j) = present (as_i64 (some j))

abbrev pub or_null : Option Json → Json
or_null none = null
or_null (some j) = j

-- `from_value::<Envelope>`.
unfoldable pub decode_envelope : Json → Option Envelope
decode_envelope j = and_then (get_str j "v") (λ v. and_then (get_str j "type") (λ verb.
    and_then (int_or_absent (get_field j "thread")) (λ thread.
      and_then (int_or_absent (get_field j "reply_to")) (λ reply_to.
        and_then (get_str j "from") (λ from.
          and_then (text_or_absent (get_field j "intent")) (λ intent. some (record {
            v = v;
            verb = verb;
            thread = thread;
            reply_to = reply_to;
            from = from;
            intent = intent;
            body = or_null (get_field j "body");
          })))))))

abbrev pub capability : String → Option String → Option Capability
capability name falsifiable_by = some (record { name = name; falsifiable_by = falsifiable_by })

-- A struct's fields may come as an array, in their order and with none left out.
abbrev pub decode_sequence : Items → Option Capability
decode_sequence (cons a (cons b nil)) =
    and_then (as_str (some a)) (λ name. and_then (text_or_absent (some b)) (capability name))
decode_sequence _ = none

unfoldable pub decode_capability : Json → Option Capability
decode_capability (array js) = decode_sequence js
decode_capability j =
    and_then (get_str j "name")
      (λ name. and_then (text_or_absent (get_field j "falsifiable_by")) (capability name))

unfoldable pub decode_items : Items → Option (List Capability)
unfolding decode_capability
decode_items nil = some []
decode_items (cons j js) =
    let rest = decode_items js in
    and_then (decode_capability j) (λ c. and_then rest (λ cs. some (c ∷ cs)))

-- A list that is empty where the field is absent.
abbrev pub decode_capabilities : Option Json → Option (List Capability)
decode_capabilities none = some []
decode_capabilities (some (array js)) = decode_items js
decode_capabilities (some _) = none

-- `from_value::<Hello>`.
unfoldable pub decode_hello : Json → Option Hello
decode_hello j = and_then (get_str j "v") (λ v. and_then (get_str j "type") (λ verb.
    and_then (get_str j "agent_name") (λ agent_name.
      and_then (text_or_absent (get_field j "provider")) (λ provider.
        and_then (text_or_absent (get_field j "model")) (λ model.
          and_then (text_or_absent (get_field j "role")) (λ role.
            and_then (decode_capabilities (get_field j "capabilities")) (λ caps.
              and_then (get_field j "attestation") (λ attestation. some (record {
                v = v;
                verb = verb;
                agent_name = agent_name;
                provider = provider;
                model = model;
                role = role;
                capabilities = caps;
                attestation = attestation;
              })))))))))

abbrev pub parsed_hello : Option Hello → Option Parsed
parsed_hello none = none
parsed_hello (some h) = some (hello h)

abbrev pub parsed_verb : Option Envelope → Option Parsed
parsed_verb none = none
parsed_verb (some e) = some (verb e)

unfoldable pub parse_typed : Json → Option String → Option Parsed
parse_typed j none = none
parse_typed j (some t) =
    if same t "HELLO" then parsed_hello (decode_hello j) else parsed_verb (decode_envelope j)

unfoldable pub parse : (String → Option Json) → String → Option Parsed
unfolding parse_typed
parse from_str content = and_then (from_str content) (λ j.
    and_then (get_str j "v")
      (λ v. if starts_with v "lantern/" then parse_typed j (get_str j "type") else none))
