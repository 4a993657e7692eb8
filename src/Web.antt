-- ===== src/Web.antt =====
-- crates/clawchat-server/src/web.rs: the endpoints of the REST API. HTTP and JSON are axum's and
-- serde's; headers and bodies are given as the texts that they hold, and the parsing of an address
-- and the random key are arguments.
pub mod Exposure
use clawdchat.Base.{
  ℕ, ◌+◌, String, Bool, not, ◌||◌, ◌&&◌, true, false, Option, none, some, List, [], ◌++◌, map, keep,
  length, contains, same, is_some_of, or_else, if◌then◌else◌,
}
use clawdchat.Map.{values}
use clawdchat.Core.Models.{Room, ChatMessage, AgentInfo}
use clawdchat.Store.Schema.{Store, Result, ok, err, unwrap_or}
use clawdchat.Store.Rooms.{get_room, validate_api_key}
use clawdchat.Store.Histories.{get_history}
use clawdchat.Store.Listings.{list_rooms, list_rooms_for_key, create_api_key}
use clawdchat.RateLimit.{try_register_signup}
use clawdchat.Broker.{AgentConnection}
use clawdchat.Handler.{World}

pub record AppState : Type 0 where
  pub world : World
  pub no_auth : Bool
  pub api_key : String
  pub signup_enabled : Bool
  pub admin_secret : Option String
  pub allowed_origins : List String
  pub trusted_proxy_ips : List String

pub data Refusal : Type 0 where
  signup_disabled admin_required too_many_signups store_failed : Refusal
  room_private room_missing unauthorized : Refusal

pub data Response {ℓ} (A : Type ℓ) : Type ℓ where
  answered : A → Response A
  rejected : Refusal → Response A

-- A browser's origin has to be listed; other clients send none.
unfoldable pub origin_allowed : Option String → List String → Bool
origin_allowed none allowed = true
origin_allowed (some origin) allowed = contains allowed origin

-- The last address that a trusted proxy forwards, else the peer's.
unfoldable pub signup_bucket :
    (String → Option String) → String → Option String → List String → String
signup_bucket last_address peer forwarded trusted =
    if contains trusted peer
    then or_else (elim forwarded [ none ↦ none | some value ↦ last_address value ]) peer
    else peer

abbrev pub with_store : AppState → Store → AppState
with_store st s = record st { world = record st.world { store = s } }

abbrev pub key_created : AppState → String → Store × Result Bool → AppState × Response String
key_created st key (s, err e) = (with_store st s, rejected store_failed)
key_created st key (s, ok b) = (with_store st s, answered key)

-- `admin_secret` is set, and it is what the caller sends.
abbrev pub is_admin : Option String → Option String → Bool
is_admin none supplied = false
is_admin (some secret) supplied = is_some_of supplied secret

-- `POST /api/keys`; `key` is the fresh random one. The label that a key may have is left out.
unfoldable pub create_key :
    (String → Option String)
    → AppState
    → ℕ
    → String
    → Option String
    → Option String
    → String
    → AppState × Response String
unfolding signup_bucket
create_key last_address st now peer forwarded supplied key =
    if not st.signup_enabled
    then (st, rejected signup_disabled)
    else if not (is_admin st.admin_secret supplied)
    then (st, rejected admin_required)
    else (let client_ip = signup_bucket last_address peer forwarded st.trusted_proxy_ips in
        let (limiter, within) = try_register_signup st.world.limiter now client_ip in
        let limited = record st { world = record st.world { limiter = limiter } } in
        if within
        then key_created limited key (create_api_key limited.world.store key)
        else (limited, rejected too_many_signups))

-- `GET /api/status`: how many agents are connected, and how many rooms there are.
unfoldable pub api_status : AppState → ℕ × ℕ
api_status st = (
  length (values st.world.broker.agents),
  length (unwrap_or (list_rooms st.world.store none) []) + length (values st.world.ephemeral_rooms),
)

abbrev pub is_public : Room → Bool
is_public room = same room.visibility "public"

-- `GET /api/rooms`.
unfoldable pub api_list_rooms : AppState → List Room
api_list_rooms st =
    unwrap_or (list_rooms_for_key st.world.store none none) []
    ++ keep is_public (values st.world.ephemeral_rooms)

abbrev pub info_of : AgentConnection → AgentInfo
info_of c = c.info

-- `GET /api/agents`; of an agent its id, name and capabilities are written.
unfoldable pub api_list_agents : AppState → Option String → Response (List AgentInfo)
api_list_agents st none = rejected unauthorized
api_list_agents st (some key) =
    if not (same key st.api_key) && not (unwrap_or (validate_api_key st.world.store key) false)
    then rejected unauthorized
    else answered (
        map info_of (
          keep (λ (c : AgentConnection). st.no_auth || same c.api_key key)
            (values st.world.broker.agents)))

abbrev pub history_of : Store → String → Option Room → Response (List ChatMessage)
history_of s room_id none = rejected room_missing
history_of s room_id (some room) =
    if is_public room
    then answered (unwrap_or (get_history s room_id 100 none) [])
    else rejected room_private

abbrev pub found_room : Result (Option Room) → Option Room
found_room (ok o) = o
found_room (err e) = none

-- `GET /api/rooms/{room_id}/history`.
unfoldable pub api_room_history : AppState → String → Response (List ChatMessage)
api_room_history st room_id =
    history_of st.world.store room_id (found_room (get_room st.world.store room_id))
