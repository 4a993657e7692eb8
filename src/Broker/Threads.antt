-- ===== src/Broker/Threads.antt =====
-- crates/clawchat-server/src/broker.rs: the calls that change a room's members or its turn, access by
-- access. Each access of a DashMap is atomic; between two of them another thread may run.
use clawdchat.Base.{
  ℕ, zero, suc, String, Bool, Option, none, some, List, [], ◌∷◌, ◌++◌, contains, without, or_else,
  is_some_of, if◌then◌else◌,
}
use clawdchat.Map.{Map, get, insert, remove, update, contains_key, empty}
use clawdchat.Core.Protocol.{Frame}
use clawdchat.Broker.{
  Broker, new_broker, get_room_members, next_after, pass_turn, first, is_empty, send_to_agent,
}

-- A call for a room, and then where it stands: what it has read and what it does next.
pub data Thread : Type 0 where
  joining joined taking : String → String → Thread
  leaving : String → String → Thread
  retaining : String → String → Bool → Thread
  emptied passing : String → Thread
  handing : String → Option String → Thread
  speaking : String → String → Thread
  turning : String → Option String → Thread
  removing vacated : String → Thread

unfoldable pub room_of : Thread → String
room_of (joining a room) = room
room_of (joined a room) = room
room_of (taking a room) = room
room_of (leaving a room) = room
room_of (retaining a room was_holder) = room
room_of (emptied room) = room
room_of (passing room) = room
room_of (handing room next) = room
room_of (speaking a room) = room
room_of (turning room next) = room
room_of (removing room) = room
room_of (vacated room) = room

abbrev pub pushed : List String → String → List String
pushed members a = if contains members a then members else members ++ a ∷ []

-- After `retain`, one who had the turn gives it up or hands it on.
abbrev pub after_retain : String → Bool → List String → Option Thread
after_retain room was_holder remaining =
    if was_holder
    then (if is_empty remaining then some (emptied room) else some (passing room))
    else none

-- Who speaks in an empty room leaves it without a turn.
abbrev pub follower : List String → String → Option String
follower members a = if is_empty members then none else next_after members a

-- The next access of a call, and where it stands then.
unfoldable pub step : Broker → Thread → Broker × Option Thread
unfolding pass_turn
step b (joining a room) = (
  record b {
    room_members = insert b.room_members room (pushed (or_else (get b.room_members room) []) a);
  },
  some (joined a room),
)
step b (joined a room) =
    (b, if contains_key b.turn_holders room then none else some (taking a room))
step b (taking a room) = (record b { turn_holders = insert b.turn_holders room a }, none)
step b (leaving a room) = (b, some (retaining a room (is_some_of (get b.turn_holders room) a)))
step b (retaining a room was_holder) =
    let left = update b.room_members room (λ members. without members a) in
    (record b { room_members = left }, after_retain room was_holder (or_else (get left room) []))
step b (emptied room) = (record b { turn_holders = remove b.turn_holders room }, none)
step b (passing room) = (b, some (handing room (first (or_else (get b.room_members room) []))))
step b (handing room next) = (record b { turn_holders = pass_turn b.turn_holders room next }, none)
step b (speaking a room) = (b, some (turning room (follower (get_room_members b room) a)))
step b (turning room next) = (record b { turn_holders = pass_turn b.turn_holders room next }, none)
step b (removing room) =
    (record b { room_members = remove b.room_members room }, some (vacated room))
step b (vacated room) = (record b { turn_holders = remove b.turn_holders room }, none)

-- A call that nothing interrupts.
unfoldable pub finish : ℕ → Broker → Option Thread → Broker
unfolding step
finish n b none = b
finish zero b (some t) = b
finish (suc n) b (some t) = let (b', more) = step b t in finish n b' more

-- Calls in progress, at most one for each room.
pub record Interleaved : Type 0 where
  pub broker : Broker
  pub working : Map Thread

pub data Call : Type 0 where
  joins leaves speaks : String → String → Call
  removes : String → Call

unfoldable pub started : Call → Thread
started (joins a room) = joining a room
started (leaves a room) = leaving a room
started (speaks a room) = speaking a room
started (removes room) = removing room

-- A call begins, the call of a room makes its next access, or a frame is sent.
pub data Event : Type 0 where
  begins : Call → Event
  proceeds : String → Event
  sends : String → Frame → Event

abbrev pub put : Map Thread → String → Option Thread → Map Thread
put m room none = remove m room
put m room (some t) = insert m room t

abbrev pub proceed : Interleaved → String → Option Thread → Interleaved
proceed s room none = s
proceed s room (some t) = record s {
  broker = (step s.broker t).0;
  working = put s.working room (step s.broker t).1;
}

-- A call waits while another one for its room is in progress.
unfoldable pub next : Interleaved → Event → Interleaved
unfolding started room_of step
next s (begins c) =
    if contains_key s.working (room_of (started c))
    then s
    else record s { working = insert s.working (room_of (started c)) (started c) }
next s (proceeds room) = proceed s room (get s.working room)
next s (sends a f) = record s { broker = send_to_agent s.broker a f }

unfoldable pub interleave : Interleaved → List Event → Interleaved
unfolding next
interleave s [] = s
interleave s (e ∷ es) = interleave (next s e) es

abbrev pub at_start : Interleaved
at_start = record { broker = new_broker; working = empty }
