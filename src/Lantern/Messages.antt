-- ===== src/Lantern/Messages.antt =====
-- How an envelope and a greeting are made and written as JSON.
use clawdchat.Base.{ℕ, String, Option, none, some, List, [], ◌∷◌}
use clawdchat.Core.Json.{Json, text, number, array, object, Items, nil, cons, Fields, end, field}
use clawdchat.Lantern.{Envelope, Capability, Hello}

abbrev pub lantern_version : String
lantern_version = "lantern/0.1.1"

-- `Envelope::new`.
abbrev pub new_envelope : String → String → Option ℕ → Option ℕ → Option String → Json → Envelope
new_envelope verb from thread reply_to intent body = record {
  v = lantern_version;
  verb = verb;
  thread = thread;
  reply_to = reply_to;
  from = from;
  intent = intent;
  body = body;
}

-- What a greeting says of itself is `self_attested`.
abbrev pub self_attested : Json
self_attested = object (
    field "agent_name" (text "self_attested") (
      field "provider" (text "self_attested") (
        field "model" (text "self_attested")
          (field "role" (text "self_attested") (field "capabilities" (text "self_attested") end)))))

-- `Hello::new`.
abbrev pub new_hello :
    String → Option String → Option String → Option String → List Capability → Hello
new_hello agent_name provider model role capabilities = record {
  v = lantern_version;
  verb = "HELLO";
  agent_name = agent_name;
  provider = provider;
  model = model;
  role = role;
  capabilities = capabilities;
  attestation = self_attested;
}

-- A field that is skipped where it is absent.
abbrev pub number_if : String → Option ℕ → Fields → Fields
number_if k none fs = fs
number_if k (some n) fs = field k (number n) fs

abbrev pub text_if : String → Option String → Fields → Fields
text_if k none fs = fs
text_if k (some s) fs = field k (text s) fs

-- `serde_json::to_value` of an envelope, by its attributes.
unfoldable pub encode_envelope : Envelope → Json
encode_envelope e = object (
    field "v" (text e.v) (
      field "type" (text e.verb) (
        number_if "thread" e.thread (
          number_if "reply_to" e.reply_to
            (field "from" (text e.from) (text_if "intent" e.intent (field "body" e.body end)))))))

unfoldable pub encode_capability : Capability → Json
encode_capability c =
    object (field "name" (text c.name) (text_if "falsifiable_by" c.falsifiable_by end))

unfoldable pub encode_items : List Capability → Items
unfolding encode_capability
encode_items [] = nil
encode_items (c ∷ cs) = cons (encode_capability c) (encode_items cs)

-- `serde_json::to_value` of a greeting.
unfoldable pub encode_hello : Hello → Json
unfolding encode_items
encode_hello h = object (
    field "v" (text h.v) (
      field "type" (text h.verb) (
        field "agent_name" (text h.agent_name) (
          text_if "provider" h.provider (
            text_if "model" h.model (
              text_if "role" h.role (
                field "capabilities" (array (encode_items h.capabilities))
                  (field "attestation" h.attestation end))))))))
