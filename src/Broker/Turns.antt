-- ===== src/Broker/Turns.antt =====
-- How the turn moves: what a departure reports, the round of the members, and disconnecting.
use native.Mathlib.Numerals.{add-one}
use native.Mathlib.Decide.{dec_le}
use native.Mathlib.Nat.{zero-add, suc-add, mod-eq_of_lt, mod-add-mod, add-mod_right}
use mathlib.Core.Path.{subst}
use clawdchat.Base.{
  ℕ, zero, suc, ◌+◌, ◌-◌, ◌%◌, ◌<◌, String, ◌≡◌, refl, ap, ◌∙◌, ite, if_pos, if_neg, true, false,
  Option, none, some, List, [], ◌∷◌, arith, dec_eq, contains, without, IsDistinct, get_elem?-lt,
  contains-without, is_some_of, or_else, length, get_elem?, if◌then◌else◌,
}
use clawdchat.Map.{Map, get, update, passes, contains-keys_where}
use clawdchat.Broker.Order.{position-get_elem?, next_after-some}
use clawdchat.Broker.Seats.{Seats, rise, speak, seats-leave_room, get-pass_turn, seats-advance}
use clawdchat.Broker.Members.{IsConsistent}
use clawdchat.Broker.{
  Broker, get_room_members, turn_holder, is_agent_in_room, leave_room, leave_each, leave_all_rooms,
  rooms_of, advance_turn_from, first, next_after, is_empty,
}

members-leave_room :
    (b : Broker) (a room r : String)
    → get_room_members (leave_room b a room).0 r
      ≡ ite (dec_eq room r) (without (get_room_members b room) a) (get_room_members b r)
unfolding rise
members-leave_room b a room r =
    ground (arith, ap (λ (s : Seats). s.members) (seats-leave_room b room r a))

in_room-members :
    (b : Broker) (x r : String) → is_agent_in_room b x r ≡ contains (get_room_members b r) x
unfolding is_agent_in_room get_room_members
in_room-members b x r = refl

-- A departure ends one membership, and every other stands.
pub in_room-leave_room :
    (b : Broker) (a room x r : String)
    → is_agent_in_room (leave_room b a room).0 x r
      ≡ ite
          (dec_eq room r)
          (ite (dec_eq a x) false (is_agent_in_room b x r))
          (is_agent_in_room b x r)
in_room-leave_room b a room x r =
    rw (in_room-members, members-leave_room b a room r)
      (ground (arith, in_room-members b x r, contains-without (get_room_members b room) a x))

in_room-leave_each :
    (b : Broker) (a : String) (rs : List String) (x r : String)
    → is_agent_in_room (leave_each b a rs).0 x r
      ≡ ite
          (dec_eq a x)
          (if contains rs r then false else is_agent_in_room b x r)
          (is_agent_in_room b x r)
unfolding leave_each contains
in_room-leave_each b a [] x r = ground arith
in_room-leave_each b a (s ∷ rs) x r =
    ground (arith, in_room-leave_each (leave_room b a s).0 a rs x r, in_room-leave_room b a s x r)

rooms_of_complete :
    (b : Broker) (a r : String) → is_agent_in_room b a r ≡ true → contains (rooms_of b a) r ≡ true
unfolding is_agent_in_room rooms_of
rooms_of_complete b a r h = ground (
  arith,
  named (get b.room_members r),
  contains-keys_where (λ members. contains members a) b.room_members r,
)
  where
    named :
        (o : Option (List String))
        → contains (or_else o []) a ≡ passes (λ members. contains members a) o
    named none = unfold contains in refl
    named (some ms) = refl

-- Leaving all rooms ends every membership of the agent, and none of another agent.
pub in_room-leave_all_rooms :
    (b : Broker) (a x r : String)
    → is_agent_in_room (leave_all_rooms b a).0 x r ≡ ite (dec_eq a x) false (is_agent_in_room b x r)
unfolding leave_all_rooms
in_room-leave_all_rooms b a x r = elim (dec_eq a x) [
  | yes p ↦
      rw (in_room-leave_each b a (rooms_of b a) x r, if_pos _ p, if_pos _ p)
        (subst (λ y. (if contains (rooms_of b a) r then false else is_agent_in_room b y r) ≡ false)
          p (ground (arith, rooms_of_complete b a r)))
  | no n ↦ rw (in_room-leave_each b a (rooms_of b a) x r, if_neg _ n, if_neg _ n) refl
]

-- What `leave_room` reports is what the room shows afterwards: whether it is empty, and, if the one
-- who left held the turn, who holds it now; that is the first of those who are left.
pub leave_room-reports :
    (b : Broker) (a room : String)
    → let c = (leave_room b a room).0 in
      let held = is_some_of (turn_holder b room) a in
      ((leave_room b a room).1 ≡ record {
        now_empty = is_empty (get_room_members c room);
        new_holder = if held then turn_holder c room else none;
        holder_changed = held;
      })
      × (turn_holder c room
          ≡ (if held then first (get_room_members c room) else turn_holder b room))
unfolding leave_room get_room_members turn_holder
leave_room-reports b a room =
    let left : Map (List String) = update b.room_members room (λ members. without members a) in
    ground (arith, get-pass_turn b.turn_holders room (first (or_else (get left room) [])) room)

speak_once : Broker → String → Option String → Broker
speak_once b room none = b
speak_once b room (some h) = (advance_turn_from b room h).0

-- The broker after the holder of the turn has spoken, `n` times.
pub rounds : Broker → String → ℕ → Broker
unfolding speak_once
rounds b room zero = b
rounds b room (suc n) = let c = rounds b room n in speak_once c room (turn_holder c room)

members-advance :
    (b : Broker) (a room r : String)
    → get_room_members (advance_turn_from b room a).0 r ≡ get_room_members b r
unfolding speak
members-advance b a room r =
    ground (arith, ap (λ (s : Seats). s.members) (seats-advance b room r a))

holder-advance :
    (b : Broker) (a room m : String) (ms : List String)
    → get_room_members b room ≡ m ∷ ms
    → turn_holder (advance_turn_from b room a).0 room ≡ next_after (m ∷ ms) a
unfolding speak
holder-advance b a room m ms e =
    ground (arith, ap (λ (s : Seats). s.holder) (seats-advance b room room a))

module _ (room : String) (m : String) (ms : List String) (distinct : IsDistinct (m ∷ ms)) where
  -- The turn is at a place in the order.
  IsAt : Broker → ℕ → Type 0
  IsAt b j =
      (get_room_members b room ≡ m ∷ ms)
      × (turn_holder b room ≡ get_elem? (m ∷ ms) (j % suc (length ms)))

  mod-suc : (j : ℕ) → (j % suc (length ms) + 1) % suc (length ms) ≡ suc j % suc (length ms)
  mod-suc j = mod-add-mod j (suc (length ms)) 1 ∙ ap (λ t. t % suc (length ms)) (add-one j)

  speak_once-IsAt :
      (b : Broker) (j : ℕ) → IsAt b j → IsAt (speak_once b room (turn_holder b room)) (suc j)
  unfolding IsAt speak_once
  speak_once-IsAt b j (e, p) =
      let (h, q) = get_elem?-lt (m ∷ ms) (j % suc (length ms)) (omega arith) in
      rw (p, q)
        (
          members-advance b h room room ∙ e,
          holder-advance b h room m ms e
              ∙ next_after-some (m ∷ ms) h (j % suc (length ms))
                  (position-get_elem? (m ∷ ms) (j % suc (length ms)) h distinct q)
              ∙ ap (get_elem? (m ∷ ms)) (mod-suc j),
        )

  rounds-IsAt : (b : Broker) (i n : ℕ) → IsAt b i → IsAt (rounds b room n) (n + i)
  unfolding rounds
  rounds-IsAt b i zero h = rw zero-add h
  rounds-IsAt b i (suc n) h =
      rw suc-add (speak_once-IsAt (rounds b room n) (n + i) (rounds-IsAt b i n h))

-- In a consistent broker the turn goes round the room: after the holder, who sits at place `i`, and
-- each next holder have spoken, `n` messages in all, the same members sit there and the one at
-- place `n + i`, counted around the room, holds the turn.
pub holder-rounds :
    (b : Broker) (room : String) (i n : ℕ)
    → IsConsistent b
    → i < length (get_room_members b room)
    → turn_holder b room ≡ get_elem? (get_room_members b room) i
    → (get_room_members (rounds b room n) room ≡ get_room_members b room)
      × (turn_holder (rounds b room n) room
          ≡ get_elem? (get_room_members b room) ((n + i) % length (get_room_members b room)))
unfolding IsAt
holder-rounds b room i n v lt e = go (get_room_members b room) refl (v room).distinct lt e
  where
    go :
        (ms : List String)
        → get_room_members b room ≡ ms
        → IsDistinct ms
        → i < length ms
        → turn_holder b room ≡ get_elem? ms i
        → (get_room_members (rounds b room n) room ≡ ms)
          × (turn_holder (rounds b room n) room ≡ get_elem? ms ((n + i) % length ms))
    go [] p d lt e = absurd (omega arith)
    go (m ∷ ms) p d lt e = rounds-IsAt room m ms d b i n (p, rw (mod-eq_of_lt lt) e)

-- In a consistent broker whose room has its turn at a place `i` of the join order, the member at
-- any place `j` gets the turn after fewer messages of the holders than there are members.
pub turn_comes :
    (b : Broker) (room : String) (i j : ℕ)
    → IsConsistent b
    → i < length (get_room_members b room)
    → turn_holder b room ≡ get_elem? (get_room_members b room) i
    → j < length (get_room_members b room)
    → (n : ℕ) × (n < length (get_room_members b room))
      × (turn_holder (rounds b room n) room ≡ get_elem? (get_room_members b room) j)
turn_comes b room i j v lt e lt' = elim (dec_le i j) [
  | yes h ↦ (
    j - i,
    omega arith,
    (holder-rounds b room i (j - i) v lt e).1 ∙ ap (get_elem? ms) (at_place (omega arith)),
  )
  | no h ↦ (
    j + length ms - i,
    omega arith,
    (holder-rounds b room i (j + length ms - i) v lt e).1
        ∙ ap (get_elem? ms) (
            ap (λ t. t % length ms) (omega arith) ∙ add-mod_right j (length ms) ∙ mod-eq_of_lt lt'),
  )
]
  where
    ms : List String
    ms = get_room_members b room

    at_place : {k : ℕ} → k ≡ j → k % length ms ≡ j
    at_place p = rw p (mod-eq_of_lt lt')
