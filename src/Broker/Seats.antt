-- ===== src/Broker/Seats.antt =====
-- What the broker promises of one room, with no tables: who sits in it, in join order, and who
-- holds the turn. Each operation of the broker does this to its room and nothing to the others.
use clawdchat.Base.{
  String, ◌≡◌, refl, ite, Option, none, some, List, [], ◌∷◌, ◌++◌, arith, dec_eq, is_some_of,
  or_else, contains, without, if◌then◌else◌,
}
use clawdchat.Map.{Map, get, get-insert, get-remove, get-update, update, contains_key}
use clawdchat.Broker.Order.{next_after-member}
use clawdchat.Broker.{
  Broker, get_room_members, turn_holder, join_room, leave_room, advance_turn_from, remove_room,
  first, next_after, is_empty, pass_turn,
}

pub record Seats : Type 0 where
  pub members : List String
  pub holder : Option String

abbrev pub seats : Broker → String → Seats
seats b room_id = record { members = get_room_members b room_id; holder = turn_holder b room_id }

abbrev pub take_turn : String → Option String → Option String
take_turn a none = some a
take_turn a (some h) = some h

-- The newcomer sits last, and holds the turn if nobody does.
unfoldable pub sit : String → Seats → Seats
sit a s = record {
  members = if contains s.members a then s.members else s.members ++ a ∷ [];
  holder = take_turn a s.holder;
}

-- The turn of one who leaves goes to the first of the others.
unfoldable pub rise : String → Seats → Seats
rise a s = record {
  members = without s.members a;
  holder = if is_some_of s.holder a then first (without s.members a) else s.holder;
}

-- The turn goes to the one after the sender.
unfoldable pub speak : String → Seats → Seats
speak a s = record s { holder = if is_empty s.members then none else next_after s.members a }

abbrev pub vacant : Seats
vacant = record { members = []; holder = none }

pub get-pass_turn :
    (holders : Map String) (room : String) (next : Option String) (r : String)
    → get (pass_turn holders room next) r ≡ ite (dec_eq room r) next (get holders r)
unfolding pass_turn
get-pass_turn holders room none r = get-remove holders room r
get-pass_turn holders room (some next) r = get-insert holders room next r

-- A member list after a departure, in the room that is left and in any other.
remaining :
    (m : Map (List String)) (a room r : String)
    → or_else (get (update m room (λ members. without members a)) r) []
      ≡ ite (dec_eq room r) (without (or_else (get m room) []) a) (or_else (get m r) [])
unfolding without
remaining m a room r = ground (arith, get-update m room (λ members. without members a) r)

module _ (b : Broker) (room r : String) where
  -- Joining changes the seats of the room as `sit` says, and of no other room.
  pub seats-join_room :
      (a : String)
      → seats (join_room b a room).0 r ≡ ite (dec_eq room r) (sit a (seats b room)) (seats b r)
  unfolding join_room sit get_room_members turn_holder contains_key
  seats-join_room a =
      let ms : List String = or_else (get b.room_members room) [] in
      ground (
        arith,
        get-insert b.turn_holders room a r,
        get-insert b.room_members room (if contains ms a then ms else ms ++ a ∷ []) r,
      )

  -- Leaving changes the seats of the room as `rise` says, and of no other room.
  pub seats-leave_room :
      (a : String)
      → seats (leave_room b a room).0 r ≡ ite (dec_eq room r) (rise a (seats b room)) (seats b r)
  unfolding leave_room rise get_room_members turn_holder
  seats-leave_room a =
      let m : Map (List String) = b.room_members in
      ground (
        arith,
        remaining m a room r,
        remaining m a room room,
        get-pass_turn b.turn_holders room
            (first (or_else (get (update m room (λ members. without members a)) room) [])) r,
      )

  advance_to :
      (a : String) (ms : List String)
      → or_else (get b.room_members room) [] ≡ ms
      → seats (advance_turn_from b room a).0 r
        ≡ ite (dec_eq room r) (speak a (seats b room)) (seats b r)
  unfolding advance_turn_from speak get_room_members turn_holder
  advance_to a [] e = ground (arith, get-remove b.turn_holders room r)
  advance_to a (m ∷ ms) e =
      let (n, p, _) = next_after-member (m ∷ ms) a (omega arith) in
      ground (arith, p, get-insert b.turn_holders room n r)

  -- A message changes the seats of the room as `speak` says, and of no other room.
  pub seats-advance :
      (a : String)
      → seats (advance_turn_from b room a).0 r
        ≡ ite (dec_eq room r) (speak a (seats b room)) (seats b r)
  seats-advance a = advance_to a (or_else (get b.room_members room) []) refl

  pub seats-remove_room : seats (remove_room b room) r ≡ ite (dec_eq room r) vacant (seats b r)
  unfolding remove_room get_room_members turn_holder
  seats-remove_room =
      ground (arith, get-remove b.turn_holders room r, get-remove b.room_members room r)
