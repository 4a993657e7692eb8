-- ===== src/Handler.antt =====
-- crates/clawchat-server/src/handler.rs: what the handlers share, the state that they change, and the
-- checks that they make first. A handler takes the payload that its frame decodes to; `none` is a
-- payload that does not decode.
pub mod Rooms
pub mod Posts
pub mod Polling
pub mod Work
pub mod Reads
pub mod Listings
pub mod Subscriptions
pub mod Backfill
pub mod Subscribers
pub mod Dispatch
pub mod Departure
pub mod Outsiders
pub mod Hidden
pub mod Sealed
pub mod Ciphertexts
pub mod Cleanup
use Prim.Native.String.{len}
use clawdchat.Base.{
  ℕ, String, ite, Bool, true, false, ◌&&◌, ◌||◌, not, Option, none, some, List, same, is_some_of,
  ltb, if◌then◌else◌, dec_eq,
}
use clawdchat.Map.{Map, get}
use clawdchat.Core.Crypto.{is_ciphertext}
use clawdchat.Core.Errors.{
  ErrorCode, plaintext_in_encrypted_room, message_too_large, room_not_found, access_denied,
  rate_limit_messages,
}
use clawdchat.Core.Models.{Room, ChatMessage, TurnChangedPayload}
use clawdchat.Core.Protocol.{Frame, FrameType, turn_changed, turn_body, event, error_frame}
use clawdchat.Broker.{Broker, turn_holder, get_room_members, broadcast_to_room_all}
use clawdchat.RateLimit.{RateLimiter, TierLimits, for_tier, check_message_rate}
use clawdchat.Store.Schema.{Store, Result, ok, err, unwrap_or}
use clawdchat.Store.Rooms.{get_room, get_key_tier}
use clawdchat.Tasks.{TaskManager}
use clawdchat.Voting.Polls.{VoteManager}

-- What the server's parts hold. `to_enqueue` are the messages that were handed to the webhook
-- manager, each of which has a task of its own that will enqueue its deliveries.
pub record World : Type 0 where
  pub broker : Broker
  pub store : Store
  pub ephemeral_rooms : Map Room
  pub votes : VoteManager
  pub limiter : RateLimiter
  pub tasks : TaskManager
  pub to_enqueue : List ChatMessage

-- The sender of a frame, with the clocks and the fresh id that its handler reads.
pub record Request : Type 0 where
  pub req_id : Option String
  pub agent_id : String
  pub agent_name : String
  pub api_key : String
  pub no_auth : Bool
  pub now : ℕ
  pub instant : ℕ
  pub fresh : String

-- `.ok().flatten()`.
abbrev pub flat {ℓ} : {A : Type ℓ} → Result (Option A) → Option A
flat (ok o) = o
flat (err e) = none

-- The room, among those in memory and then among those in the store.
unfoldable pub find_room : Map Room → Store → String → Option Room
find_room rooms s room_id = elim (get rooms room_id) [
  | some room ↦ some room
  | none ↦ flat (get_room s room_id)
]

abbrev pub encrypted_of : Option Room → Bool
encrypted_of none = false
encrypted_of (some room) = room.encrypted

-- A room whose row cannot be read counts as not encrypted.
unfoldable pub room_is_encrypted : Map Room → Store → String → Bool
unfolding find_room
room_is_encrypted rooms s room_id = encrypted_of (find_room rooms s room_id)

unfoldable pub reject_plaintext_in_encrypted_room :
    Option String → String → String → Map Room → Store → Option Frame
reject_plaintext_in_encrypted_room req_id content room_id rooms s =
    if room_is_encrypted rooms s room_id && not (is_ciphertext content)
    then some (error_frame req_id plaintext_in_encrypted_room)
    else none

unfoldable pub reject_oversized : Option String → String → TierLimits → Option Frame
reject_oversized req_id content limits =
    if ltb limits.max_message_bytes (len content)
    then some (error_frame req_id message_too_large)
    else none

pub data Access : Type 0 where
  granted : Room → Access
  refused : Frame → Access

abbrev pub may_read : String → Bool → Room → Bool
may_read api_key no_auth room =
    no_auth || (same room.visibility "public" || is_some_of room.owner_key api_key)

unfoldable pub authorize_room : Option String → String → String → Bool → Store → Map Room → Access
authorize_room req_id room_id api_key no_auth s rooms = elim (find_room rooms s room_id) [
  | none ↦ refused (error_frame req_id room_not_found)
  | some room ↦
      if may_read api_key no_auth room
      then granted room
      else refused (error_frame req_id access_denied)
]

unfoldable pub broadcast_turn_changed : Broker → String → String → Broker
broadcast_turn_changed b room_id reason = broadcast_to_room_all b room_id (
    event turn_changed (
      turn_body (record {
        room_id = room_id;
        current_turn_holder = turn_holder b room_id;
        turn_order = get_room_members b room_id;
        reason = reason;
      })))

-- `if let Some(err) = check { return err; }`.
abbrev pub guarded {ℓ} : {W : Type ℓ} → W → Option Frame → W × Frame → W × Frame
guarded w none rest = rest
guarded w (some f) rest = (w, f)

-- The limits of the tier of the sender's key.
unfoldable pub limits_of : Store → String → TierLimits
limits_of s api_key = for_tier (unwrap_or (get_key_tier s api_key) "free")

abbrev pub is_empty_text : String → Bool
is_empty_text t = same t ""

-- The size and the rate of messages, checked of the keys that are subject to limits.
unfoldable pub check_message : World → Request → String → World × Option Frame
check_message w r content =
    let limits = limits_of w.store r.api_key in
    if r.no_auth || is_empty_text r.api_key
    then (w, none)
    else elim (reject_oversized r.req_id content limits) [
      | some f ↦ (w, some f)
      | none ↦
          let (limiter, fits) = check_message_rate w.limiter r.instant r.api_key limits in
          (
            record w { limiter = limiter },
            if fits then none else some (error_frame r.req_id rate_limit_messages),
          )
    ]
