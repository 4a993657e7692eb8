-- ===== src/Reconnect.antt =====
-- crates/clawchat-server/src/reconnect.rs: what is kept of an agent that lost its connection. `now`
-- is the monotonic clock, in nanoseconds.
pub mod Laws
use clawdchat.Base.{
  ℕ, ◌-◌, ◌*◌, ◌≡◌, String, ite, Bool, true, false, not, ◌&&◌, Option, none, some, List, [], ◌∷◌,
  ◌++◌, ltb, length, contains, other, if◌then◌else◌,
}
use clawdchat.Map.{Map, empty, get, insert, remove, update, retain, contains_key, keys_where}
use clawdchat.Core.Protocol.{Frame}

abbrev pub window : ℕ
window = 120 * 1000000000

abbrev pub max_buffered_messages : ℕ
max_buffered_messages = 200

pub record StashedAgent : Type 0 where
  pub agent_id : String
  pub name : String
  pub api_key : String
  pub rooms : List String
  pub missed_messages : List Frame
  pub disconnected_at : ℕ

pub record ReconnectManager : Type 0 where
  pub stashed : Map StashedAgent

pub data ReclaimError : Type 0 where
  credential_mismatch : ReclaimError

pub data Reclaimed : Type 0 where
  reclaimed : Option StashedAgent → Reclaimed
  refused : ReclaimError → Reclaimed

unfoldable pub new_manager : ReconnectManager
new_manager = record { stashed = empty }

abbrev pub is_fresh : ℕ → StashedAgent → Bool
is_fresh now s = ltb (now - s.disconnected_at) window

-- One tick of the background task.
unfoldable pub sweep : ReconnectManager → ℕ → ReconnectManager
sweep m now = record { stashed = retain (is_fresh now) m.stashed }

unfoldable pub stash :
    ReconnectManager → ℕ → String → String → String → List String → ReconnectManager
stash m now agent_id name api_key rooms = record {
  stashed = insert m.stashed agent_id (record {
    agent_id = agent_id;
    name = name;
    api_key = api_key;
    rooms = rooms;
    missed_messages = [];
    disconnected_at = now;
  });
}

unfoldable pub reclaim :
    ReconnectManager → ℕ → String → String → Bool → ReconnectManager × Reclaimed
reclaim m now agent_id api_key no_auth = elim (get m.stashed agent_id) [
  | none ↦ (m, reclaimed none)
  | some s ↦ if not no_auth && other s.api_key api_key then (m, refused credential_mismatch) else (
    record { stashed = remove m.stashed agent_id },
    reclaimed (if is_fresh now s then some s else none),
  )
]

unfoldable pub buffer_message : ReconnectManager → String → Frame → ReconnectManager
buffer_message m agent_id f = record {
  stashed = update m.stashed agent_id (λ s.
      if ltb (length s.missed_messages) max_buffered_messages
      then record s { missed_messages = s.missed_messages ++ f ∷ [] }
      else s);
}

unfoldable pub is_stashed : ReconnectManager → String → Bool
is_stashed m agent_id = contains_key m.stashed agent_id

unfoldable pub stashed_members_of_room : ReconnectManager → String → List String
stashed_members_of_room m room_id = keys_where (λ s. contains s.rooms room_id) m.stashed
