-- ===== src/Client.antt =====
-- crates/clawchat-client/src/connection.rs: what a client does with the frames that it receives and
-- how it waits for a message. Sockets and their timeouts are left out; the next frame or the end of
-- the time is an argument.
pub mod Inbox
pub mod Requests
pub mod Rising
pub mod Waiting
use clawdchat.Base.{
  ℕ, String, Bool, true, false, ◌&&◌, ◌||◌, not, Option, none, some, List, [], ◌∷◌, map, same,
  if◌then◌else◌,
}
use clawdchat.Core.Json.{get_str}
use clawdchat.Core.Errors.{ErrorCode}
use clawdchat.Core.Models.{ChatMessage}
use clawdchat.Core.Protocol.{
  Frame, Payload, error, message_received, error_body, history_body, message_body,
}
use clawdchat.Core.Crypto.{
  Bytes, Primitives, Decrypted, plain, refused, encrypt, decrypt, is_ciphertext,
}

pub data ClientError : Type 0 where
  io json connection_closed timeout channel ws : ClientError
  server : ErrorCode → ClientError

pub data Outcome {ℓ} (A : Type ℓ) : Type ℓ where
  done : A → Outcome A
  failed : ClientError → Outcome A

pub record ClawChatClient : Type 0 where
  pub agent_id : String
  pub agent_name : String
  pub stable_identity : Bool
  pub room_secret : Option Bytes

unfoldable pub set_room_secret : ClawChatClient → Bytes → ClawChatClient
set_room_secret client secret = record client { room_secret = some secret }

-- `nonce` is the fresh random one.
abbrev pub sealed : Primitives → Bytes → Option Bytes → String → String → String
sealed c nonce none room_id content = content
sealed c nonce (some secret) room_id content = encrypt c nonce secret room_id content

unfoldable pub encrypt_content : Primitives → Bytes → ClawChatClient → String → String → String
encrypt_content c nonce client room_id content = sealed c nonce client.room_secret room_id content

abbrev pub plain_or : Decrypted → String → String
plain_or (plain s) content = s
plain_or (refused e) content = content

abbrev pub unsealed : Primitives → Option Bytes → String → String → String
unsealed c none room_id content = content
unsealed c (some secret) room_id content =
    if is_ciphertext content then plain_or (decrypt c secret room_id content) content else content

unfoldable pub decrypt_message : Primitives → ClawChatClient → ChatMessage → ChatMessage
decrypt_message c client m = record m {
  content = unsealed c client.room_secret m.room_id m.content;
}

unfoldable pub is_self_message : ClawChatClient → ChatMessage → Bool
is_self_message client m =
    same m.agent_id client.agent_id
    || (not client.stable_identity && same m.agent_name client.agent_name)

abbrev pub error_of : Payload → ErrorCode
error_of (error_body code) = code
error_of _ = ErrorCode.internal_error

abbrev pub is_error : Frame → Bool
is_error f = elim f.frame_type [ error ↦ true | _ ↦ false ]

-- What `request` makes of the response.
unfoldable pub responded : Frame → Outcome Frame
responded f = if is_error f then failed (server (error_of f.payload)) else done f

abbrev pub messages_of : Payload → List ChatMessage
messages_of (history_body room_id ms) = ms
messages_of _ = []

abbrev pub decrypted_history :
    Primitives → ClawChatClient → Outcome Frame → Outcome (List ChatMessage)
decrypted_history c client (failed e) = failed e
decrypted_history c client (done f) = done (map (decrypt_message c client) (messages_of f.payload))

-- `get_history_filtered`, by the server's response.
unfoldable pub get_history_filtered :
    Primitives → ClawChatClient → Frame → Outcome (List ChatMessage)
unfolding decrypt_message responded
get_history_filtered c client f = decrypted_history c client (responded f)

abbrev pub meta_is : String → ChatMessage → Bool
meta_is kind m = elim (get_str m.metadata "type") [ none ↦ false | some t ↦ same t kind ]

-- A message of another agent that is neither a thinking pulse nor the system's.
abbrev pub is_awaited : ClawChatClient → ChatMessage → Bool
is_awaited client m =
    not (meta_is "thinking" m) && (not (meta_is "system" m) && not (is_self_message client m))

abbrev pub first {ℓ} : {A : Type ℓ} → (A → Bool) → List A → Option A
first p [] = none
first p (x ∷ xs) = let rest = first p xs in if p x then some x else rest

-- What `events.recv()` gives.
pub data Received : Type 0 where
  frame : Frame → Received
  lagged closed : Received

-- The message of a room that a frame carries. The server sends nothing else as `message_received`.
abbrev pub message_in : Frame → String → Option ChatMessage
message_in f room_id = elim f.frame_type [
  | message_received ↦ elim f.payload [
    | message_body m ↦ if same m.room_id room_id then some m else none
    | _ ↦ none
  ]
  | _ ↦ none
]

-- The message that the live loop returns for a frame, if it does not go on.
abbrev pub accepted : Primitives → ClawChatClient → Option ChatMessage → Option ChatMessage
accepted c client none = none
accepted c client (some m) =
    if meta_is "system" m || is_self_message client m
    then none
    else some (decrypt_message c client m)

abbrev pub returned_or :
    Option ChatMessage → Outcome (Option ChatMessage) → Outcome (Option ChatMessage)
returned_or none rest = rest
returned_or (some m) rest = done (some m)

-- The loop over the events that come before the deadline.
unfoldable pub await_event :
    Primitives → ClawChatClient → String → List Received → Outcome (Option ChatMessage)
unfolding decrypt_message
await_event c client room_id [] = done none
await_event c client room_id (closed ∷ events) = failed connection_closed
await_event c client room_id (lagged ∷ events) = await_event c client room_id events
await_event c client room_id (frame f ∷ events) =
    let rest = await_event c client room_id events in
    returned_or (accepted c client (message_in f room_id)) rest

abbrev pub from_backlog :
    ClawChatClient
    → Outcome (List ChatMessage)
    → Outcome (Option ChatMessage)
    → Outcome (Option ChatMessage)
from_backlog client (failed e) live = failed e
from_backlog client (done ms) live = returned_or (first (is_awaited client) ms) live

-- `wait_for_message`; `history` is the server's response for the messages past a number, where the
-- caller gives one.
unfoldable pub wait_for_message :
    Primitives
    → ClawChatClient
    → String
    → Option Frame
    → List Received
    → Outcome (Option ChatMessage)
unfolding get_history_filtered
wait_for_message c client room_id none events = await_event c client room_id events
wait_for_message c client room_id (some history) events =
    from_backlog client (get_history_filtered c client history)
      (await_event c client room_id events)
