-- ===== src/Tests/Rooms.antt =====
-- Rooms, turns and deliveries.
use clawdchat.Base.{
  ◌||◌, ◌&&◌, not, is_some, ℕ, zero, suc, ◌<◌, ◌≡◌, refl, String, ite, true, false, Option, none,
  some, List, [], ◌∷◌, dec_eq, length, get_elem?, if◌then◌else◌, is_some_of, ◌+◌, ◌%◌, arith, ◌⊎◌,
  ◌++◌, ◌≤◌,
}
use clawdchat.Map.{get, insert, empty}
use clawdchat.Broker.{
  Broker, new_broker, get_room_members, turn_holder, is_agent_in_room, join_room, leave_room,
  deliver, broadcast_to_room,
}
use clawdchat.Broker.Seats.{seats}
use clawdchat.Broker.Members.{IsConsistent, IsOrderly, call, run, run-new_broker-IsConsistent}
use clawdchat.Broker.Turns.{rounds, turn_comes}
use clawdchat.Broker.Delivery.{queue_of, is_ending, is_for, has_space, queue-broadcast_to_room}
use clawdchat.Broker.Interleaving.{interleave-IsOrderly}
use clawdchat.Broker.Races.{turn_strays}
use clawdchat.Broker.Threads.{
  Event, begins, proceeds, joins, speaking, turning, step, interleave, at_start,
}
use clawdchat.Tests.Fixtures.{arrivals, farewell, connection}

abbrev lobby : Broker
lobby = run new_broker arrivals

members : get_room_members lobby "lobby" ≡ "ann" ∷ "bob" ∷ []
unfolding run call new_broker join_room get_room_members get clawdchat.Map.contains_key empty
    clawdchat.Map.insert dec_eq clawdchat.Base.contains
members = refl

holder : turn_holder lobby "lobby" ≡ some "ann"
unfolding run call new_broker join_room turn_holder get clawdchat.Map.contains_key empty
    clawdchat.Map.insert dec_eq
holder = refl

turn_comes_example :
    (n : ℕ) × (n < length (get_room_members lobby "lobby"))
    × (turn_holder (rounds lobby "lobby" n) "lobby" ≡ get_elem? (get_room_members lobby "lobby") 1)
turn_comes_example =
    turn_comes lobby "lobby" 0 1 (run-new_broker-IsConsistent arrivals) (rw members (omega arith))
      (rw (members, holder) refl) (rw members (omega arith))

outside : is_agent_in_room lobby "eve" "lobby" ≡ false
unfolding run call new_broker join_room is_agent_in_room clawdchat.Base.contains get
    clawdchat.Map.contains_key empty clawdchat.Map.insert dec_eq
outside = refl

-- Ann enters the lobby while Bob enters the study, access by access.
abbrev entrances : List Event
entrances =
    begins (joins "ann" "lobby")
    ∷ begins (joins "bob" "study")
    ∷ proceeds "lobby"
    ∷ proceeds "study"
    ∷ proceeds "lobby"
    ∷ proceeds "study"
    ∷ proceeds "lobby"
    ∷ []

interleave-IsOrderly_example : IsOrderly (seats (interleave at_start entrances).broker "lobby")
unfolding get interleave clawdchat.Map.contains_key empty insert dec_eq new_broker
    clawdchat.Map.remove
interleave-IsOrderly_example = interleave-IsOrderly entrances "lobby" refl

turn_strays_example :
    ((step lobby (speaking "ann" "lobby")).1 ≡ some (turning "lobby" (some "bob")))
    × (turn_holder
          (step (leave_room lobby "bob" "lobby").0 (turning "lobby" (some "bob"))).0
          "lobby"
        ≡ some "bob")
    × (is_agent_in_room
          (step (leave_room lobby "bob" "lobby").0 (turning "lobby" (some "bob"))).0
          "bob"
          "lobby"
        ≡ false)
unfolding clawdchat.Broker.next_after clawdchat.Broker.position dec_eq
turn_strays_example = turn_strays lobby "ann" "bob" "lobby" (rw members refl) (rw holder refl)

-- The lobby with Bob connected.
abbrev connected : Broker
connected = record lobby { agents = insert empty "bob" (connection "k2") }

connected-IsConsistent : IsConsistent connected
unfolding get_room_members turn_holder
connected-IsConsistent r = run-new_broker-IsConsistent arrivals r

queue-broadcast_to_room_example :
    (queue_of (get (broadcast_to_room connected "lobby" "ann" farewell).agents "bob")
      ≡ queue_of (get connected.agents "bob")
        ++ (if is_for connected "lobby" "ann" "bob" && has_space (get connected.agents "bob")
            then farewell ∷ []
            else []))
    × (is_ending (get (broadcast_to_room connected "lobby" "ann" farewell).agents "bob") ≡ (
        is_ending (get connected.agents "bob")
        || (is_for connected "lobby" "ann" "bob"
            && (is_some (get connected.agents "bob")
                && not (has_space (get connected.agents "bob"))))))
queue-broadcast_to_room_example =
    queue-broadcast_to_room connected "lobby" "ann" farewell "bob" connected-IsConsistent
