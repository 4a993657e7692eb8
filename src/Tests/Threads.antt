-- ===== src/Tests/Threads.antt =====
-- Structured reasoning, with contents whose JSON is given.
use clawdchat.Base.{
  leb, ℕ, ◌≡◌, refl, differ, String, dec_eq, Option, none, some, [], ◌∷◌, List, arith, same,
  if◌then◌else◌,
}
use clawdchat.Base.Ascending.{IsAscending}
use clawdchat.Core.Json.{number, Json, null, text, object, field, end}
use clawdchat.Core.Models.{ChatMessage}
use clawdchat.Lantern.{Parsed, verb, parse}
use clawdchat.Lantern.Messages.{new_envelope}
use clawdchat.Lantern.Wire.{encode, parse-encode}
use clawdchat.Lantern.Rules.{Std, validate}
use clawdchat.Lantern.Grammar.{is_empty, is_well_formed}
use clawdchat.Lantern.Verdicts.{validate_lem}
use clawdchat.Lantern.Threads.{reconstruct}
use clawdchat.Lantern.Contents.{IsMadeOf, reconstruct-IsMadeOf}
use clawdchat.Lantern.Grouping.{thread_id, belonging, thread_numbered}

abbrev claim : Parsed
claim = verb (new_envelope "ASSERT" "Ann" none none none (object (field "claim" (text "x") end)))

abbrev verdict : Parsed
verdict =
    verb
      (new_envelope "RESOLVE" "Bob" (some 4) none none (object (field "basis" (text "tool") end)))

-- Two contents that are JSON.
abbrev from_str : String → Option Json
from_str s =
    if same s "claim"
    then some (encode claim)
    else if same s "verdict"
    then some (encode verdict)
    else none

abbrev to_string : Json → String
to_string j = "verdict"

abbrev said : ℕ → String → ChatMessage
said seq content = record {
  message_id = content;
  room_id = "lobby";
  agent_id = "ann";
  agent_name = "Ann";
  content = content;
  reply_to_message = none;
  metadata = null;
  timestamp = 0;
  seq = seq;
}

abbrev history : List ChatMessage
history = said 4 "claim" ∷ said 5 "hello" ∷ said 6 "verdict" ∷ []

reconstruct-IsMadeOf_example :
    IsAscending thread_id (reconstruct from_str history).threads
    × IsMadeOf 4
        (belonging from_str 4 history)
        (thread_numbered (reconstruct from_str history).threads 4)
reconstruct-IsMadeOf_example = reconstruct-IsMadeOf from_str history 4

parse-encode_example : parse from_str (to_string (encode verdict)) ≡ some verdict
unfolding dec_eq
parse-encode_example =
    parse-encode from_str to_string verdict refl
      (refl, differ "RESOLVE" "HELLO" refl, omega arith, tt)

-- Texts that are never blank but when empty, and no floating-point numbers.
abbrev plain : Std
plain = record {
  trim = λ s. s;
  Float = ℕ;
  as_f64 = λ j. elim j [ number n ↦ some n | _ ↦ none ];
  at_most = leb;
  zero = 0;
  one = 1;
}

validate_lem_example :
    is_empty (validate plain (encode claim)) ≡ is_well_formed plain (encode claim)
validate_lem_example = validate_lem plain (encode claim)
