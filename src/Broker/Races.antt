-- ===== src/Broker/Races.antt =====
-- What a call does alone, and what two calls for one room can do to each other.
use clawdchat.Base.{
  String, ◌≡◌, ap, false, some, [], arith, without, contains-without, is_some_of, or_else,
}
use clawdchat.Map.{get, get-insert, get-update}
use clawdchat.Broker.{
  Broker, get_room_members, turn_holder, is_agent_in_room, join_room, leave_room, advance_turn_from,
  remove_room, next_after, first, is_empty,
}
use clawdchat.Broker.Threads.{
  speaking, turning, step, Call, joins, leaves, speaks, removes, follower,
}

-- The broker after a whole call.
abbrev pub whole : Broker → Call → Broker
whole b (joins a room) = (join_room b a room).0
whole b (leaves a room) = (leave_room b a room).0
whole b (speaks a room) = (advance_turn_from b room a).0
whole b (removes room) = remove_room b room

-- If the one who is next after `a` leaves, without having the turn, after a message of `a` has read
-- the members and before it writes the turn, then the turn is held by one who is not in the room.
pub turn_strays :
    (b : Broker) (a next room : String)
    → follower (get_room_members b room) a ≡ some next
    → is_some_of (turn_holder b room) next ≡ false
    → let left = (leave_room b next room).0 in
      let after = (step left (turning room (some next))).0 in
      ((step b (speaking a room)).1 ≡ some (turning room (some next)))
      × (turn_holder after room ≡ some next)
      × (is_agent_in_room after next room ≡ false)
unfolding step get_room_members turn_holder is_agent_in_room leave_room clawdchat.Broker.pass_turn
turn_strays b a next room e out = (
  ap (λ o. some (turning room o)) e,
  ground (arith, out, get-insert b.turn_holders room next room),
  ground (
    arith,
    out,
    get-update b.room_members room (λ members. without members next) room,
    contains-without (or_else (get b.room_members room) []) next next,
  ),
)
