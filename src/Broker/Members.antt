-- ===== src/Broker/Members.antt =====
-- The turn token's invariant: a member sits in a room once, a room with members has a holder, who
-- is a member, and an empty room has none.
use clawdchat.Base.{
  String, ◌≡◌, refl, ite, true, Option, none, some, List, [], ◌∷◌, ◌++◌, arith, dec_eq, contains,
  without, IsDistinct, contains-snoc, contains-without, IsDistinct-snoc, IsDistinct-without,
  if◌then◌else◌, is_some_of,
}
use clawdchat.Map.{get-empty}
use clawdchat.Core.Protocol.{Frame}
use clawdchat.Broker.Order.{next_after-member}
use clawdchat.Broker.Seats.{
  Seats, seats, sit, rise, speak, vacant, take_turn, seats-join_room, seats-leave_room,
  seats-advance, seats-remove_room,
}
use clawdchat.Broker.{
  Broker, new_broker, get_room_members, turn_holder, join_room, leave_room, leave_all_rooms,
  leave_each, rooms_of, advance_turn_from, remove_room, send_to_agent, first, next_after, is_empty,
}

abbrev pub IsHeld : Option String → List String → Type 0
IsHeld none ms = ms ≡ []
IsHeld (some h) ms = contains ms h ≡ true

pub record IsOrderly (s : Seats) : Type 0 where
  pub distinct : IsDistinct s.members
  pub held : IsHeld s.holder s.members

abbrev pub IsConsistent : Broker → Type 0
IsConsistent b = (r : String) → IsOrderly (seats b r)

sit-IsHeld :
    (a : String) (h : Option String) (ms : List String)
    → IsHeld h ms
    → IsHeld (take_turn a h) (if contains ms a then ms else ms ++ a ∷ [])
unfolding contains
sit-IsHeld a none ms e = ground (arith, contains-snoc ms a a)
sit-IsHeld a (some h) ms e = ground (arith, contains-snoc ms a h)

sit-IsOrderly : (a : String) (s : Seats) → IsOrderly s → IsOrderly (sit a s)
unfolding sit
sit-IsOrderly a s v = record {
  distinct = ground (arith, v.distinct, IsDistinct-snoc s.members a);
  held = sit-IsHeld a s.holder s.members v.held;
}

pub first-IsHeld : (ms : List String) → IsHeld (first ms) ms
unfolding contains
first-IsHeld [] = refl
first-IsHeld (m ∷ ms) = ground arith

pub rise-IsHeld :
    (a : String) (h : Option String) (ms : List String)
    → IsHeld h ms
    → IsHeld (if is_some_of h a then first (without ms a) else h) (without ms a)
unfolding without
rise-IsHeld a none ms e = rw e refl
rise-IsHeld a (some h) ms e = ground (arith, first-IsHeld (without ms a), contains-without ms a h)

rise-IsOrderly : (a : String) (s : Seats) → IsOrderly s → IsOrderly (rise a s)
unfolding rise
rise-IsOrderly a s v = record {
  distinct = IsDistinct-without s.members a v.distinct;
  held = rise-IsHeld a s.holder s.members v.held;
}

pub speak-IsHeld :
    (a : String) (ms : List String) → IsHeld (if is_empty ms then none else next_after ms a) ms
speak-IsHeld a [] = refl
speak-IsHeld a (m ∷ ms) = let (n, p, q) = next_after-member (m ∷ ms) a (omega arith) in rw p q

speak-IsOrderly : (a : String) (s : Seats) → IsOrderly s → IsOrderly (speak a s)
unfolding speak
speak-IsOrderly a s v = record { distinct = v.distinct; held = speak-IsHeld a s.members }

vacant-IsOrderly : IsOrderly vacant
vacant-IsOrderly = record { distinct = tt; held = refl }

-- What happens to a room and not to the others keeps a consistent broker consistent.
elsewhere :
    (b c : Broker) (room r : String) (s : Seats)
    → IsConsistent b
    → IsOrderly s
    → seats c r ≡ ite (dec_eq room r) s (seats b r)
    → IsOrderly (seats c r)
elsewhere b c room r s v o e = rw e (pick (dec_eq room r))
  where
    pick : (d : Dec (room ≡ r)) → IsOrderly (ite d s (seats b r))
    pick (yes p) = o
    pick (no p) = v r

module _ (b : Broker) (v : IsConsistent b) (a room : String) where
  pub join_room-IsConsistent : IsConsistent (join_room b a room).0
  join_room-IsConsistent r =
      elsewhere b _ room r _ v (sit-IsOrderly a _ (v room)) (seats-join_room b room r a)

  pub leave_room-IsConsistent : IsConsistent (leave_room b a room).0
  leave_room-IsConsistent r =
      elsewhere b _ room r _ v (rise-IsOrderly a _ (v room)) (seats-leave_room b room r a)

  pub advance-IsConsistent : IsConsistent (advance_turn_from b room a).0
  advance-IsConsistent r =
      elsewhere b _ room r _ v (speak-IsOrderly a _ (v room)) (seats-advance b room r a)

pub remove_room-IsConsistent :
    (b : Broker) → IsConsistent b → (room : String) → IsConsistent (remove_room b room)
remove_room-IsConsistent b v room r =
    elsewhere b _ room r vacant v vacant-IsOrderly (seats-remove_room b room r)

leave_each-IsConsistent :
    (b : Broker) (a : String) (rs : List String)
    → IsConsistent b
    → IsConsistent (leave_each b a rs).0
unfolding leave_each
leave_each-IsConsistent b a [] v = v
leave_each-IsConsistent b a (r ∷ rs) v =
    leave_each-IsConsistent (leave_room b a r).0 a rs (leave_room-IsConsistent b v a r)

leave_all_rooms-IsConsistent :
    (b : Broker) (a : String) → IsConsistent b → IsConsistent (leave_all_rooms b a).0
unfolding leave_all_rooms
leave_all_rooms-IsConsistent b a v = leave_each-IsConsistent b a (rooms_of b a) v

-- What the server does with a broker's rooms and turns.
pub data Call : Type 0 where
  joins leaves speaks : String → String → Call
  leaves_all removes : String → Call
  sends : String → Frame → Call

unfoldable pub call : Broker → Call → Broker
call b (joins a room) = (join_room b a room).0
call b (leaves a room) = (leave_room b a room).0
call b (speaks a room) = (advance_turn_from b room a).0
call b (leaves_all a) = (leave_all_rooms b a).0
call b (removes room) = remove_room b room
call b (sends a f) = send_to_agent b a f

unfoldable pub run : Broker → List Call → Broker
run b [] = b
run b (c ∷ cs) = run (call b c) cs

call-IsConsistent : (b : Broker) (c : Call) → IsConsistent b → IsConsistent (call b c)
unfolding call
call-IsConsistent b (joins a room) v = join_room-IsConsistent b v a room
call-IsConsistent b (leaves a room) v = leave_room-IsConsistent b v a room
call-IsConsistent b (speaks a room) v = advance-IsConsistent b v a room
call-IsConsistent b (leaves_all a) v = leave_all_rooms-IsConsistent b a v
call-IsConsistent b (removes room) v = remove_room-IsConsistent b v room
call-IsConsistent b (sends a f) v = unfold send_to_agent get_room_members turn_holder in v

run-IsConsistent : (b : Broker) (cs : List Call) → IsConsistent b → IsConsistent (run b cs)
unfolding run
run-IsConsistent b [] v = v
run-IsConsistent b (c ∷ cs) v = run-IsConsistent (call b c) cs (call-IsConsistent b c v)

pub new_broker-IsConsistent : IsConsistent new_broker
unfolding new_broker get_room_members turn_holder
new_broker-IsConsistent r = record {
  distinct = rw (get-empty {V = List String} r) tt;
  held = rw (get-empty {V = List String} r, get-empty {V = String} r) refl;
}

-- After calls on a new broker that run one after the other, in every room: nobody is a member twice, and the turn is held by
-- a member, or by nobody if the room is empty.
pub run-new_broker-IsConsistent : (cs : List Call) → IsConsistent (run new_broker cs)
run-new_broker-IsConsistent cs = run-IsConsistent new_broker cs new_broker-IsConsistent
