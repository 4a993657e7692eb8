-- ===== src/Connection/Quiet.antt =====
-- Taking a connection over changes nobody's membership and tells nobody.
use clawdchat.Base.{
  String, ◌≡◌, ◌≢◌, refl, ap, ◌∙◌, true, some, List, [], ◌∷◌, arith, contains, or_else,
}
use clawdchat.Map.{get, get-insert, get-update, update, Map, contains_key}
use clawdchat.Broker.{Broker, AgentConnection, join_room, get_room_members, turn_holder}
use clawdchat.Connection.{takes_over, restore, join_each}

-- The agent sits in the room, and somebody has the room's turn.
abbrev pub IsSeated : Broker → String → String → Type 0
IsSeated b a r = (contains (get_room_members b r) a ≡ true) × (contains_key b.turn_holders r ≡ true)

abbrev pub SameSeats : Broker → Broker → Type 0
SameSeats b b' =
    (r : String)
    → (get_room_members b' r ≡ get_room_members b r) × (turn_holder b' r ≡ turn_holder b r)

join_again :
    (b : Broker) (a r : String)
    → IsSeated b a r
    → SameSeats b (join_room b a r).0 × ((join_room b a r).0.agents ≡ b.agents)
unfolding join_room get_room_members turn_holder
join_again b a r (member, held) = (
  λ q. (
    ground (arith, member, held, get-insert b.room_members r (or_else (get b.room_members r) []) q),
    ground (arith, member, held),
  ),
  ground (arith, held),
)

abbrev pub AllSeated : Broker → String → List String → Type 0
AllSeated b a [] = Unit {0}
AllSeated b a (r ∷ rs) = IsSeated b a r × AllSeated b a rs

-- A key is there as long as the value is.
same_key :
    (m m' : Map String) (r : String) → get m' r ≡ get m r → contains_key m' r ≡ contains_key m r
unfolding contains_key
same_key m m' r e = rw e refl

AllSeated-same :
    (b b' : Broker) (a : String) (rs : List String)
    → SameSeats b b'
    → AllSeated b a rs
    → AllSeated b' a rs
unfolding turn_holder
AllSeated-same b b' a [] e h = tt
AllSeated-same b b' a (r ∷ rs) e ((member, held), h) = (
  (
    ap (λ ms. contains ms a) (e r).0 ∙ member,
    same_key b.turn_holders b'.turn_holders r (e r).1 ∙ held,
  ),
  AllSeated-same b b' a rs e h,
)

join_each_again :
    (b : Broker) (a : String) (rs : List String)
    → AllSeated b a rs
    → SameSeats b (join_each b a rs) × ((join_each b a rs).agents ≡ b.agents)
unfolding join_each
join_each_again b a [] h = (λ r. (refl, refl), refl)
join_each_again b a (r ∷ rs) (seated, h) =
    let b' = (join_room b a r).0 in
    let (same, agents) = join_again b a r seated in
    let (same', agents') = join_each_again b' a rs (AllSeated-same b b' a rs same h) in
    (λ q. ((same' q).0 ∙ (same q).0, (same' q).1 ∙ (same q).1), agents' ∙ agents)

-- If the agent of a connection that is taken over sits in all of the connection's rooms, and somebody
-- has the turn of each, then the take-over leaves the members and the turn of every room as they
-- were, sends nothing to any other agent, and lists the rooms in the agent's own entry.
pub restore_taken :
    (b : Broker) (a name : String) (rooms : List String) (c : AgentConnection)
    → get b.agents a ≡ some c
    → AllSeated b a rooms
    → let b' = restore b a name (takes_over rooms) in
      SameSeats b b'
      × ((x : String) → a ≢ x → get b'.agents x ≡ get b.agents x)
      × (get b'.agents a ≡ some (record c { rooms = rooms }))
unfolding restore get_room_members turn_holder
restore_taken b a name rooms c entry h =
    let joined = join_each b a rooms in
    let (same, agents) = join_each_again b a rooms h in
    let f : AgentConnection → AgentConnection = λ d. record d { rooms = rooms } in
    (
      same,
      λ x apart.
          ap (λ m. get (update m a f) x) agents ∙ ground (arith, get-update b.agents a f x, apart),
      ap (λ m. get (update m a f) a) agents ∙ ground (arith, get-update b.agents a f a, entry),
    )
