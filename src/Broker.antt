-- ===== src/Broker.antt =====
-- crates/clawchat-server/src/{broker,connection}.rs: who is connected, who is in which room, and
-- whose turn it is. A connection's channel is the list of the frames that wait in it. Each function
-- here is a whole call that no other call interrupts; the code locks one table access at a time,
-- and Broker/Threads splits the calls so.
pub mod Order
pub mod Seats
pub mod Members
pub mod Turns
pub mod Delivery
pub mod Sessions
pub mod Threads
pub mod Moves
pub mod Interleaving
pub mod Races
use clawdchat.Base.{
  ℕ, suc, ◌+◌, ◌%◌, ◌^◌, String, ite, Bool, true, false, ◌&&◌, Option, none, some, List, [], ◌∷◌,
  ◌++◌, length, get_elem?, ltb, dec_eq, is_some_of, or_else, contains, without, if◌then◌else◌,
}
use clawdchat.Map.{Map, get, insert, remove, update, contains_key, keys_where, empty}
use clawdchat.Core.Models.{AgentInfo, ChatMessage}
use clawdchat.Core.Protocol.{Frame, FrameType, mention, event, mention_body}

-- The sender's half of a bounded channel: `try_send` fails when the channel is full or its receiver
-- is gone.
pub record Channel : Type 0 where
  pub waiting : List Frame
  pub capacity : ℕ
  pub receiving : Bool

abbrev pub try_send : Channel → Frame → Option Channel
try_send c f =
    if c.receiving && ltb (length c.waiting) c.capacity
    then some (record c { waiting = c.waiting ++ f ∷ [] })
    else none

-- `disconnect` is whether the connection was told to end.
pub record AgentConnection : Type 0 where
  pub info : AgentInfo
  pub session_id : String
  pub sender : Channel
  pub disconnect : Bool
  pub rooms : List String
  pub api_key : String

unfoldable pub new_connection : AgentInfo → String → Channel → String → AgentConnection
new_connection info session_id sender api_key = record {
  info = info;
  session_id = session_id;
  sender = sender;
  disconnect = false;
  rooms = [];
  api_key = api_key;
}

pub record Broker : Type 0 where
  pub agents : Map AgentConnection
  pub room_members : Map (List String)
  pub turn_holders : Map String
  pub ephemeral_seqs : Map ℕ

unfoldable pub new_broker : Broker
new_broker = record {
  agents = empty;
  room_members = empty;
  turn_holders = empty;
  ephemeral_seqs = empty;
}

pub record JoinOutcome : Type 0 where
  pub new_holder : Option String

pub record LeaveOutcome : Type 0 where
  pub now_empty : Bool
  pub new_holder : Option String
  pub holder_changed : Bool

-- The counter is an `i64`; here it is its bit pattern.
abbrev pub i64_mod : ℕ
i64_mod = 2 ^ 64

unfoldable pub next_ephemeral_seq : Broker → String → Broker × ℕ
next_ephemeral_seq b room_id =
    let seq = or_else (get b.ephemeral_seqs room_id) 0 in
    let next = (seq + 1) % i64_mod in
    (record b { ephemeral_seqs = insert b.ephemeral_seqs room_id next }, next)

unfoldable pub ephemeral_room_tip : Broker → String → ℕ
ephemeral_room_tip b room_id = or_else (get b.ephemeral_seqs room_id) 0

unfoldable pub forget_ephemeral_seq : Broker → String → Broker
forget_ephemeral_seq b room_id = record b { ephemeral_seqs = remove b.ephemeral_seqs room_id }

-- The members of a room, in join order.
unfoldable pub get_room_members : Broker → String → List String
get_room_members b room_id = or_else (get b.room_members room_id) []

unfoldable pub turn_holder : Broker → String → Option String
turn_holder b room_id = get b.turn_holders room_id

unfoldable pub is_agent_in_room : Broker → String → String → Bool
is_agent_in_room b agent_id room_id = contains (or_else (get b.room_members room_id) []) agent_id

pub deliver : Frame → AgentConnection → AgentConnection
deliver f c = elim (try_send c.sender f) [
  | none ↦ record c { disconnect = true }
  | some sender ↦ record c { sender = sender }
]

unfoldable pub send_to_agent : Broker → String → Frame → Broker
unfolding deliver
send_to_agent b agent_id f = record b { agents = update b.agents agent_id (deliver f) }

send_to_all : Broker → List String → Frame → Broker
send_to_all b [] f = b
send_to_all b (a ∷ rest) f = send_to_all (send_to_agent b a f) rest f

-- The loop over the members skips the sender.
unfoldable pub broadcast_to_room : Broker → String → String → Frame → Broker
unfolding send_to_all
broadcast_to_room b room_id sender_id f =
    send_to_all b (without (or_else (get b.room_members room_id) []) sender_id) f

unfoldable pub broadcast_to_room_all : Broker → String → Frame → Broker
unfolding send_to_all
broadcast_to_room_all b room_id f = send_to_all b (or_else (get b.room_members room_id) []) f

notify_mentioned : Broker → List String → Frame → String → Broker
notify_mentioned b [] f room_id = b
notify_mentioned b (a ∷ rest) f room_id =
    notify_mentioned (if is_agent_in_room b a room_id then send_to_agent b a f else b) rest f
      room_id

unfoldable pub send_mentions : Broker → List String → ChatMessage → String → Broker
unfolding notify_mentioned
send_mentions b mentions message room_id =
    notify_mentioned b mentions (event mention (mention_body room_id message)) room_id

-- The first join of an empty room takes the turn.
unfoldable pub join_room : Broker → String → String → Broker × JoinOutcome
join_room b agent_id room_id =
    let members = or_else (get b.room_members room_id) [] in
    let joined =
      insert b.room_members room_id
        (if contains members agent_id then members else members ++ agent_id ∷ []) in
    if contains_key b.turn_holders room_id
    then (record b { room_members = joined }, record { new_holder = none })
    else (
      record b { room_members = joined; turn_holders = insert b.turn_holders room_id agent_id },
      record { new_holder = some agent_id },
    )

abbrev pub first : List String → Option String
first [] = none
first (x ∷ xs) = some x

abbrev pub is_empty {ℓ} : {A : Type ℓ} → List A → Bool
is_empty [] = true
is_empty (x ∷ xs) = false

-- Hand the turn to the first of those who are left, if there is one.
unfoldable pub pass_turn : Map String → String → Option String → Map String
pass_turn holders room_id none = remove holders room_id
pass_turn holders room_id (some next) = insert holders room_id next

unfoldable pub leave_room : Broker → String → String → Broker × LeaveOutcome
unfolding pass_turn
leave_room b agent_id room_id =
    let was_holder = is_some_of (get b.turn_holders room_id) agent_id in
    let left = update b.room_members room_id (λ members. without members agent_id) in
    let remaining = or_else (get left room_id) [] in
    let now_empty = is_empty remaining in
    if was_holder
    then (
      record b {
        room_members = left;
        turn_holders = pass_turn b.turn_holders room_id (first remaining);
      },
      record { now_empty = now_empty; new_holder = first remaining; holder_changed = true },
    )
    else (
      record b { room_members = left },
      record { now_empty = now_empty; new_holder = none; holder_changed = false },
    )

leave_each : Broker → String → List String → Broker × List (String × LeaveOutcome)
leave_each b agent_id [] = (b, [])
leave_each b agent_id (r ∷ rs) =
    let (b', outcome) = leave_room b agent_id r in
    let (b'', outcomes) = leave_each b' agent_id rs in (b'', (r, outcome) ∷ outcomes)

-- The rooms whose member list names the agent.
unfoldable pub rooms_of : Broker → String → List String
rooms_of b agent_id = keys_where (λ members. contains members agent_id) b.room_members

unfoldable pub leave_all_rooms : Broker → String → Broker × List (String × LeaveOutcome)
unfolding leave_each
leave_all_rooms b agent_id = leave_each b agent_id (rooms_of b agent_id)

-- `iter().position(|m| m == a)`.
unfoldable pub position : List String → String → Option ℕ
position [] a = none
position (x ∷ xs) a =
    let rest = position xs a in
    ite (dec_eq x a) (some 0) (elim rest [ none ↦ none | some i ↦ some (suc i) ])

-- Who follows the sender in join order; `none` is an index out of range, where the source panics.
unfoldable pub next_after : List String → String → Option String
next_after members sender_id = elim (position members sender_id) [
  | none ↦ get_elem? members 0
  | some i ↦ get_elem? members ((i + 1) % length members)
]

unfoldable pub advance_turn_from : Broker → String → String → Broker × Option String
advance_turn_from b room_id sender_id =
    let members = get_room_members b room_id in
    if is_empty members
    then (record b { turn_holders = remove b.turn_holders room_id }, none)
    else elim (next_after members sender_id) [
      | none ↦ (b, none)
      | some next ↦ (record b { turn_holders = insert b.turn_holders room_id next }, some next)
    ]

-- Forget a room's members and its turn.
unfoldable pub remove_room : Broker → String → Broker
remove_room b room_id = record b {
  room_members = remove b.room_members room_id;
  turn_holders = remove b.turn_holders room_id;
}

-- `create_agent_channel`, and the channel of `connection_loop`.
unfoldable pub create_agent_channel : Channel
create_agent_channel = record { waiting = []; capacity = 256; receiving = true }
