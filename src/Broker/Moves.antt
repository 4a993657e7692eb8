-- ===== src/Broker/Moves.antt =====
-- What one access of a call does to the seats of its room, and what they are like in the middle of a
-- call.
use mathlib.Core.Path.{subst}
use clawdchat.Base.{
  String, ◌≡◌, refl, ite, Bool, true, false, Option, none, some, List, [], ◌∷◌, arith, dec_eq,
  contains, without, IsDistinct, contains-snoc, IsDistinct-snoc, IsDistinct-without, if◌then◌else◌,
  is_some_of, or_else, Bool-cases, inl, inr, is_some,
}
use clawdchat.Map.{get, get-insert, get-remove, get-update, contains_key}
use clawdchat.Broker.Seats.{Seats, seats, get-pass_turn}
use clawdchat.Broker.Members.{IsHeld, IsOrderly, first-IsHeld, rise-IsHeld, speak-IsHeld}
use clawdchat.Broker.{Broker, get_room_members, turn_holder, first, is_empty}
use clawdchat.Broker.Threads.{
  Thread, joining, joined, taking, leaving, retaining, emptied, passing, handing, speaking, turning,
  removing, vacated, room_of, pushed, after_retain, follower, step,
}

-- What an access does to the seats of the room of its call.
pub move : Thread → Seats → Seats × Option Thread
move (joining a room) s = (record s { members = pushed s.members a }, some (joined a room))
move (joined a room) s = (s, if is_some s.holder then none else some (taking a room))
move (taking a room) s = (record s { holder = some a }, none)
move (leaving a room) s = (s, some (retaining a room (is_some_of s.holder a)))
move (retaining a room w) s =
    (record s { members = without s.members a }, after_retain room w (without s.members a))
move (emptied room) s = (record s { holder = none }, none)
move (passing room) s = (s, some (handing room (first s.members)))
move (handing room n) s = (record s { holder = n }, none)
move (speaking a room) s = (s, some (turning room (follower s.members a)))
move (turning room n) s = (record s { holder = n }, none)
move (removing room) s = (record s { members = [] }, some (vacated room))
move (vacated room) s = (record s { holder = none }, none)

pub step-move : (b : Broker) (t : Thread) → (step b t).1 ≡ (move t (seats b (room_of t))).1
unfolding step move room_of get_room_members turn_holder contains_key without
step-move b (joining a room) = refl
step-move b (joined a room) = refl
step-move b (taking a room) = refl
step-move b (leaving a room) = refl
step-move b (retaining a room w) =
    ground (arith, get-update b.room_members room (λ members. without members a) room)
step-move b (emptied room) = refl
step-move b (passing room) = refl
step-move b (handing room n) = refl
step-move b (speaking a room) = refl
step-move b (turning room n) = refl
step-move b (removing room) = refl
step-move b (vacated room) = refl

pub seats-step :
    (b : Broker) (t : Thread) (r : String)
    → seats (step b t).0 r ≡ ite (dec_eq (room_of t) r) (move t (seats b (room_of t))).0 (seats b r)
unfolding step move room_of get_room_members turn_holder without
seats-step b (joining a room) r =
    ground
      (arith, get-insert b.room_members room (pushed (or_else (get b.room_members room) []) a) r)
seats-step b (joined a room) r = ground arith
seats-step b (taking a room) r = ground (arith, get-insert b.turn_holders room a r)
seats-step b (leaving a room) r = ground arith
seats-step b (retaining a room w) r =
    ground (arith, get-update b.room_members room (λ members. without members a) r)
seats-step b (emptied room) r = ground (arith, get-remove b.turn_holders room r)
seats-step b (passing room) r = ground arith
seats-step b (handing room n) r = ground (arith, get-pass_turn b.turn_holders room n r)
seats-step b (speaking a room) r = ground arith
seats-step b (turning room n) r = ground (arith, get-pass_turn b.turn_holders room n r)
seats-step b (removing room) r = ground (arith, get-remove b.room_members room r)
seats-step b (vacated room) r = ground (arith, get-remove b.turn_holders room r)

-- A holder, if there is one, is a member.
abbrev IsSeated : Option String → List String → Type 0
IsSeated none ms = Unit {0}
IsSeated (some h) ms = contains ms h ≡ true

-- What the seats of a room are like while a call for it stands where it does.
abbrev pub IsPhase : Option Thread → Seats → Type 0
IsPhase none s = IsOrderly s
IsPhase (some (joining a room)) s = IsOrderly s
IsPhase (some (joined a room)) s =
    IsDistinct s.members × (contains s.members a ≡ true) × IsSeated s.holder s.members
IsPhase (some (taking a room)) s = IsDistinct s.members × (contains s.members a ≡ true)
IsPhase (some (leaving a room)) s = IsOrderly s
IsPhase (some (retaining a room w)) s = IsOrderly s × (w ≡ is_some_of s.holder a)
IsPhase (some (emptied room)) s = s.members ≡ []
IsPhase (some (passing room)) s = IsDistinct s.members
IsPhase (some (handing room n)) s = IsDistinct s.members × IsHeld n s.members
IsPhase (some (speaking a room)) s = IsOrderly s
IsPhase (some (turning room n)) s = IsDistinct s.members × IsHeld n s.members
IsPhase (some (removing room)) s = IsOrderly s
IsPhase (some (vacated room)) s = s.members ≡ []

pushed-IsSeated :
    (a : String) (h : Option String) (ms : List String) → IsHeld h ms → IsSeated h (pushed ms a)
pushed-IsSeated a none ms e = tt
pushed-IsSeated a (some h) ms e = ground (arith, contains-snoc ms a h)

joined-IsPhase :
    (a room : String) (ms : List String) (h : Option String)
    → IsDistinct ms
    → contains ms a ≡ true
    → IsSeated h ms
    → IsPhase
        (if is_some h then none else some (taking a room))
        (record { members = ms; holder = h })
joined-IsPhase a room ms none d c e = (d, c)
joined-IsPhase a room ms (some h) d c e = record { distinct = d; held = e }

empty-nil : (ms : List String) → is_empty ms ≡ true → ms ≡ []
empty-nil [] e = refl
empty-nil (m ∷ ms) e = ground (arith, e)

retained-IsPhase :
    (a room : String) (ms : List String) (h : Option String)
    → IsDistinct ms
    → IsHeld h ms
    → IsPhase
        (after_retain room (is_some_of h a) (without ms a))
        (record { members = without ms a; holder = h })
retained-IsPhase a room ms h d e = elim (Bool-cases (is_some_of h a)) [
  | inl q ↦ elim (Bool-cases (is_empty (without ms a))) [
    | inl z ↦ rw (q, z) (empty-nil (without ms a) z)
    | inr z ↦ rw (q, z) (IsDistinct-without ms a d)
  ]
  | inr q ↦
      rw q (record { distinct = IsDistinct-without ms a d; held = kept q (rise-IsHeld a h ms e) })
]
  where
    kept :
        is_some_of h a ≡ false
        → IsHeld (if is_some_of h a then first (without ms a) else h) (without ms a)
        → IsHeld h (without ms a)
    kept q k = subst (λ w. IsHeld (if w then first (without ms a) else h) (without ms a)) q k

pub move-IsPhase : (t : Thread) (s : Seats) → IsPhase (some t) s → IsPhase (move t s).1 (move t s).0
unfolding move
move-IsPhase (joining a room) s v = (
  ground (arith, v.distinct, IsDistinct-snoc s.members a),
  ground (arith, contains-snoc s.members a a),
  pushed-IsSeated a s.holder s.members v.held,
)
move-IsPhase (joined a room) s (d, c, e) = joined-IsPhase a room s.members s.holder d c e
move-IsPhase (taking a room) s (d, c) = record { distinct = d; held = c }
move-IsPhase (leaving a room) s v = (v, refl)
move-IsPhase (retaining a room w) s (v, e) =
    rw e (retained-IsPhase a room s.members s.holder v.distinct v.held)
move-IsPhase (emptied room) s e = record { distinct = rw e tt; held = e }
move-IsPhase (passing room) s d = (d, first-IsHeld s.members)
move-IsPhase (handing room n) s (d, h) = record { distinct = d; held = h }
move-IsPhase (speaking a room) s v = (v.distinct, speak-IsHeld a s.members)
move-IsPhase (turning room n) s (d, h) = record { distinct = d; held = h }
move-IsPhase (removing room) s v = refl
move-IsPhase (vacated room) s e = record { distinct = rw e tt; held = e }

-- A call keeps to its room.
abbrev pub IsPlaced : String → Option Thread → Type 0
IsPlaced r none = Unit {0}
IsPlaced r (some t) = room_of t ≡ r

after_retain-IsPlaced :
    (room : String) (w : Bool) (ms : List String) → IsPlaced room (after_retain room w ms)
unfolding room_of
after_retain-IsPlaced room w ms = ground arith

pub move-IsPlaced : (t : Thread) (s : Seats) → IsPlaced (room_of t) (move t s).1
unfolding move room_of
move-IsPlaced (joining a room) s = refl
move-IsPlaced (joined a room) s = ground arith
move-IsPlaced (taking a room) s = tt
move-IsPlaced (leaving a room) s = refl
move-IsPlaced (retaining a room w) s = after_retain-IsPlaced room w (without s.members a)
move-IsPlaced (emptied room) s = tt
move-IsPlaced (passing room) s = refl
move-IsPlaced (handing room n) s = tt
move-IsPlaced (speaking a room) s = refl
move-IsPlaced (turning room n) s = tt
move-IsPlaced (removing room) s = refl
move-IsPlaced (vacated room) s = tt
