-- ===== src/Lantern/Wire.antt =====
-- What is written out is read back.
use package.text.Mathlib.Text.{starts_with}
use clawdchat.Base.{
  ℕ, ◌<◌, ◌^◌, ◌≡◌, ◌≢◌, refl, ap, ◌∙◌, String, Option, none, some, List, [], ◌∷◌, true, arith, ltb,
  lt→ltb, same,
}
use clawdchat.Core.Json.{Json, as_i64, find, as_str, get_field, get_str, number}
use clawdchat.Lantern.{
  Envelope, Capability, Hello, Parsed, hello, verb, decode_envelope, decode_hello, decode_items,
  decode_capability, parse, parse_typed,
}
use clawdchat.Lantern.Messages.{encode_envelope, encode_hello, encode_items, encode_capability}

-- A number fits 64 bits with a sign.
abbrev pub Fits : Option ℕ → Type 0
Fits none = Unit
Fits (some n) = n < 2 ^ 63

as_i64_lem : (n : ℕ) → n < 2 ^ 63 → as_i64 (some (number n)) ≡ some n
unfolding as_i64
as_i64_lem n h = rw (lt→ltb n (2 ^ 63) h) refl

-- Each field that may be absent is there or not.
decode_fields :
    (v type from : String) (thread reply_to : Option ℕ) (intent : Option String) (body : Json)
    → Fits thread
    → Fits reply_to
    → (e : Envelope)
    → e ≡ record {
      v = v;
      verb = type;
      thread = thread;
      reply_to = reply_to;
      from = from;
      intent = intent;
      body = body;
    }
    → decode_envelope (encode_envelope e) ≡ some e
unfolding decode_envelope encode_envelope get_str get_field find as_str clawdchat.Base.dec_eq
decode_fields v type from none none none body h i e q = rw q refl
decode_fields v type from none none (some s) body h i e q = rw q refl
decode_fields v type from none (some k) none body h i e q = rw (q, as_i64_lem k i) refl
decode_fields v type from none (some k) (some s) body h i e q = rw (q, as_i64_lem k i) refl
decode_fields v type from (some n) none none body h i e q = rw (q, as_i64_lem n h) refl
decode_fields v type from (some n) none (some s) body h i e q = rw (q, as_i64_lem n h) refl
decode_fields v type from (some n) (some k) none body h i e q =
    rw (q, as_i64_lem n h, as_i64_lem k i) refl
decode_fields v type from (some n) (some k) (some s) body h i e q =
    rw (q, as_i64_lem n h, as_i64_lem k i) refl

decode-encode_envelope :
    (e : Envelope) → Fits e.thread → Fits e.reply_to → decode_envelope (encode_envelope e) ≡ some e
decode-encode_envelope e h i =
    decode_fields e.v e.verb e.from e.thread e.reply_to e.intent e.body h i e refl

decode-encode_capability :
    (name : String) (test : Option String) (c : Capability)
    → c ≡ record { name = name; falsifiable_by = test }
    → decode_capability (encode_capability c) ≡ some c
unfolding decode_capability encode_capability get_str get_field find as_str clawdchat.Base.dec_eq
decode-encode_capability name none c q = rw q refl
decode-encode_capability name (some t) c q = rw q refl

decode-encode_items : (cs : List Capability) → decode_items (encode_items cs) ≡ some cs
unfolding decode_items encode_items
decode-encode_items [] = refl
decode-encode_items (c ∷ cs) =
    rw (decode-encode_capability c.name c.falsifiable_by c refl, decode-encode_items cs) refl

decode_hello_fields :
    (v type name : String) (provider model role : Option String) (cs : List Capability)
    → (attestation : Json) (h : Hello)
    → h ≡ record {
      v = v;
      verb = type;
      agent_name = name;
      provider = provider;
      model = model;
      role = role;
      capabilities = cs;
      attestation = attestation;
    }
    → decode_hello (encode_hello h) ≡ some h
unfolding decode_hello encode_hello get_str get_field find as_str clawdchat.Base.dec_eq
decode_hello_fields v type name none none none cs a h q = rw (q, decode-encode_items cs) refl
decode_hello_fields v type name none none (some r) cs a h q = rw (q, decode-encode_items cs) refl
decode_hello_fields v type name none (some m) none cs a h q = rw (q, decode-encode_items cs) refl
decode_hello_fields v type name none (some m) (some r) cs a h q =
    rw (q, decode-encode_items cs) refl
decode_hello_fields v type name (some p) none none cs a h q = rw (q, decode-encode_items cs) refl
decode_hello_fields v type name (some p) none (some r) cs a h q =
    rw (q, decode-encode_items cs) refl
decode_hello_fields v type name (some p) (some m) none cs a h q =
    rw (q, decode-encode_items cs) refl
decode_hello_fields v type name (some p) (some m) (some r) cs a h q =
    rw (q, decode-encode_items cs) refl

decode-encode_hello : (h : Hello) → decode_hello (encode_hello h) ≡ some h
decode-encode_hello h =
    decode_hello_fields h.v h.verb h.agent_name h.provider h.model h.role h.capabilities
      h.attestation h refl

-- `serde_json::to_value`.
abbrev pub encode : Parsed → Json
encode (hello h) = encode_hello h
encode (verb e) = encode_envelope e

-- A greeting says that it is one, an envelope has another type and numbers that fit 64 bits, and both
-- name a version of the protocol.
abbrev pub IsSendable : Parsed → Type 0
IsSendable (hello h) = (starts_with h.v "lantern/" ≡ true) × (h.verb ≡ "HELLO")
IsSendable (verb e) =
    (starts_with e.v "lantern/" ≡ true) × (e.verb ≢ "HELLO") × Fits e.thread × Fits e.reply_to

get_v-encode_hello : (h : Hello) → get_str (encode_hello h) "v" ≡ some h.v
unfolding encode_hello get_str find as_str clawdchat.Base.dec_eq
get_v-encode_hello h = refl

get_type-encode_hello : (h : Hello) → get_str (encode_hello h) "type" ≡ some h.verb
unfolding encode_hello get_str find as_str clawdchat.Base.dec_eq
get_type-encode_hello h = refl

get_v-encode_envelope : (e : Envelope) → get_str (encode_envelope e) "v" ≡ some e.v
unfolding encode_envelope get_str find as_str clawdchat.Base.dec_eq
get_v-encode_envelope e = refl

get_type-encode_envelope : (e : Envelope) → get_str (encode_envelope e) "type" ≡ some e.verb
unfolding encode_envelope get_str find as_str clawdchat.Base.dec_eq
get_type-encode_envelope e = refl

parse_typed-greeting :
    (j : Json) (type : String) (h : Hello)
    → type ≡ "HELLO"
    → decode_hello j ≡ some h
    → parse_typed j (some type) ≡ some (hello h)
unfolding parse_typed
parse_typed-greeting j type h e d = rw d (ground (arith, e))

parse_typed-envelope :
    (j : Json) (type : String) (e : Envelope)
    → type ≢ "HELLO"
    → decode_envelope j ≡ some e
    → parse_typed j (some type) ≡ some (verb e)
unfolding parse_typed
parse_typed-envelope j type e n d = rw d (ground (arith, n))

-- A greeting or an envelope that is written as the content of a message is parsed to itself, provided
-- that the text of its JSON is read back as that JSON, provided that its version starts with
-- "lantern/", that its type is "HELLO" exactly when it is a greeting, and that its thread and the
-- number that it replies to, where it has them, are below 2^63.
pub parse-encode :
    (from_str : String → Option Json) (to_string : Json → String) (p : Parsed)
    → from_str (to_string (encode p)) ≡ some (encode p)
    → IsSendable p
    → parse from_str (to_string (encode p)) ≡ some p
unfolding parse
parse-encode from_str to_string (hello h) reads s =
    rw (reads, get_v-encode_hello h, s.0, get_type-encode_hello h)
      (parse_typed-greeting (encode_hello h) h.verb h s.1 (decode-encode_hello h))
parse-encode from_str to_string (verb e) reads (v, other, fits, replies) =
    rw (reads, get_v-encode_envelope e, v, get_type-encode_envelope e)
      (parse_typed-envelope (encode_envelope e) e.verb e other
        (decode-encode_envelope e fits replies))
