-- ===== src/Broker/Delivery.antt =====
-- Who receives a frame: broadcasts, mentions, and channels that are full.
use mathlib.Core.List.{append-nil}
use clawdchat.Base.{
  Bool, Option, none, some, not, ◌||◌, is_some, same, ◌≤◌, String, ◌≡◌, refl, ite, true, false,
  ◌&&◌, List, [], ◌∷◌, ◌++◌, arith, dec_eq, contains, without, IsDistinct, contains-without,
  IsDistinct-without, or_else, length, length-append, if◌then◌else◌, ltb, Bool-cases, inl, inr, ◌∙◌,
  ◌⊎◌,
}
use clawdchat.Map.{get, get-update, changed}
use clawdchat.Core.Models.{ChatMessage}
use clawdchat.Core.Protocol.{Frame, mention, event, mention_body}
use clawdchat.Broker.Seats.{seats}
use clawdchat.Broker.Members.{IsConsistent}
use clawdchat.Broker.{
  Broker, Channel, AgentConnection, deliver, get_room_members, turn_holder, is_agent_in_room,
  send_to_agent, send_to_all, broadcast_to_room, broadcast_to_room_all, send_mentions,
  notify_mentioned,
}

pub get-send_to_agent :
    (b : Broker) (x : String) (f : Frame) (y : String)
    → get (send_to_agent b x f).agents y
      ≡ ite (dec_eq x y) (changed (deliver f) (get b.agents x)) (get b.agents y)
unfolding send_to_agent
get-send_to_agent b x f y = get-update b.agents x (deliver f) y

-- A frame either joins the end of the channel, which then holds no more than its capacity, or finds
-- it full or closed and ends the connection: none is dropped in silence.
pub deliver_or_end :
    (f : Frame) (c : AgentConnection)
    → ((deliver f c).sender.waiting ≡ c.sender.waiting ++ f ∷ [])
        × (length (deliver f c).sender.waiting ≤ c.sender.capacity)
        × ((deliver f c).disconnect ≡ c.disconnect)
      ⊎ ((c.sender.capacity ≤ length c.sender.waiting) ⊎ (c.sender.receiving ≡ false))
        × ((deliver f c).sender ≡ c.sender)
        × ((deliver f c).disconnect ≡ true)
unfolding deliver
deliver_or_end f c =
    elim (Bool-cases (c.sender.receiving && ltb (length c.sender.waiting) c.sender.capacity)) [
      | inl e ↦
          inl (ground arith, ground (arith, length-append c.sender.waiting (f ∷ [])), ground arith)
      | inr e ↦ inr (full c.sender e, ground arith, ground arith)
    ]
  where
    full :
        (s : Channel)
        → (s.receiving && ltb (length s.waiting) s.capacity) ≡ false
        → (s.capacity ≤ length s.waiting) ⊎ (s.receiving ≡ false)
    full s e = ground arith

-- A channel never holds more than its capacity.
pub deliver-bounded :
    (f : Frame) (c : AgentConnection)
    → length c.sender.waiting ≤ c.sender.capacity
    → length (deliver f c).sender.waiting ≤ (deliver f c).sender.capacity
unfolding deliver
deliver-bounded f c h = ground (arith, length-append c.sender.waiting (f ∷ []))

get-send_to_all :
    (b : Broker) (ms : List String) (f : Frame) (y : String)
    → IsDistinct ms
    → get (send_to_all b ms f).agents y
      ≡ (if contains ms y then changed (deliver f) (get b.agents y) else get b.agents y)
unfolding send_to_all contains
get-send_to_all b [] f y d = refl
get-send_to_all b (m ∷ ms) f y d =
    ground (arith, get-send_to_all (send_to_agent b m f) ms f y d.1, get-send_to_agent b m f y)

seats-send_to_all :
    (b : Broker) (ms : List String) (f : Frame) (r : String)
    → seats (send_to_all b ms f) r ≡ seats b r
unfolding send_to_all send_to_agent get_room_members turn_holder
seats-send_to_all b [] f r = refl
seats-send_to_all b (m ∷ ms) f r = seats-send_to_all (send_to_agent b m f) ms f r

module _ (b : Broker) (v : IsConsistent b) (room : String) (f : Frame) (y : String) where
  -- In a consistent broker a broadcast reaches the connection of each member of the room but the
  -- sender, and no other.
  pub get-broadcast_to_room :
      (sender : String)
      → get (broadcast_to_room b room sender f).agents y ≡ (
          if ite (dec_eq sender y) false (is_agent_in_room b y room)
          then changed (deliver f) (get b.agents y)
          else get b.agents y)
  unfolding broadcast_to_room is_agent_in_room get_room_members
  get-broadcast_to_room sender =
      let ms : List String = or_else (get b.room_members room) [] in
      ground (
        arith,
        get-send_to_all b (without ms sender) f y (IsDistinct-without ms sender (v room).distinct),
        contains-without ms sender y,
      )

  pub get-broadcast_to_room_all :
      get (broadcast_to_room_all b room f).agents y
      ≡ (if is_agent_in_room b y room then changed (deliver f) (get b.agents y) else get b.agents y)
  unfolding broadcast_to_room_all is_agent_in_room get_room_members
  get-broadcast_to_room_all =
      get-send_to_all b (or_else (get b.room_members room) []) f y (v room).distinct

-- The frames that wait for an agent, and whether its connection was told to end.
abbrev pub queue_of : Option AgentConnection → List Frame
queue_of none = []
queue_of (some c) = c.sender.waiting

abbrev pub is_ending : Option AgentConnection → Bool
is_ending none = false
is_ending (some c) = c.disconnect

-- Its receiver is there, and the channel holds fewer frames than it may.
abbrev pub has_space : Option AgentConnection → Bool
has_space none = false
has_space (some c) = c.sender.receiving && ltb (length c.sender.waiting) c.sender.capacity

queue-deliver :
    (f : Frame) (o : Option AgentConnection)
    → queue_of (changed (deliver f) o) ≡ queue_of o ++ (if has_space o then f ∷ [] else [])
unfolding deliver
queue-deliver f none = refl
queue-deliver f (some c) = ground (arith, append-nil c.sender.waiting)

ending-deliver :
    (f : Frame) (o : Option AgentConnection)
    → is_ending (changed (deliver f) o) ≡ (is_ending o || (is_some o && not (has_space o)))
unfolding deliver
ending-deliver f none = refl
ending-deliver f (some c) = ground arith

-- Whom a broadcast to the room is for: its members but the sender.
abbrev pub is_for : Broker → String → String → String → Bool
is_for b room sender y = not (same sender y) && is_agent_in_room b y room

-- In a consistent broker, a broadcast to a room adds its frame once, at the end, to the queue of every
-- agent of the room but the sender whose channel is open and not full, and to no other queue; and it
-- tells those connections to end, and no others, that belong to an agent of the room but the sender
-- and whose channel is closed or full.
pub queue-broadcast_to_room :
    (b : Broker) (room sender : String) (f : Frame) (y : String)
    → IsConsistent b
    → (queue_of (get (broadcast_to_room b room sender f).agents y)
        ≡ queue_of (get b.agents y)
          ++ (if is_for b room sender y && has_space (get b.agents y) then f ∷ [] else []))
      × (is_ending (get (broadcast_to_room b room sender f).agents y) ≡ (
          is_ending (get b.agents y)
          || (is_for b room sender y
              && (is_some (get b.agents y) && not (has_space (get b.agents y))))))
queue-broadcast_to_room b room sender f y v =
    let sent = get-broadcast_to_room b v room f y sender in
    (
      ground
          (arith, sent, queue-deliver f (get b.agents y), append-nil (queue_of (get b.agents y))),
      ground (arith, sent, ending-deliver f (get b.agents y)),
    )

-- Sending frames moves nobody and no turn.
pub seats-broadcast_to_room :
    (b : Broker) (room sender : String) (f : Frame) (r : String)
    → seats (broadcast_to_room b room sender f) r ≡ seats b r
unfolding broadcast_to_room
seats-broadcast_to_room b room sender f r =
    seats-send_to_all b (without (or_else (get b.room_members room) []) sender) f r

pub seats-broadcast_to_room_all :
    (b : Broker) (room : String) (f : Frame) (r : String)
    → seats (broadcast_to_room_all b room f) r ≡ seats b r
unfolding broadcast_to_room_all
seats-broadcast_to_room_all b room f r =
    seats-send_to_all b (or_else (get b.room_members room) []) f r

in_room-send :
    (b : Broker) (a : String) (f : Frame) (y room : String)
    → is_agent_in_room (send_to_agent b a f) y room ≡ is_agent_in_room b y room
unfolding is_agent_in_room send_to_agent
in_room-send b a f y room = refl

mentioned-outsider :
    (b : Broker) (names : List String) (f : Frame) (room y : String)
    → is_agent_in_room b y room ≡ false
    → get (notify_mentioned b names f room).agents y ≡ get b.agents y
unfolding notify_mentioned
mentioned-outsider b [] f room y out = refl
mentioned-outsider b (a ∷ names) f room y out = elim (Bool-cases (is_agent_in_room b a room)) [
  | inl e ↦
      rw (e, notify_mentioned)
        (mentioned-outsider (send_to_agent b a f) names f room y (in_room-send b a f y room ∙ out)
          ∙ ground (arith, get-send_to_agent b a f y))
  | inr e ↦ rw (e, notify_mentioned) (mentioned-outsider b names f room y out)
]

-- The mentions of a message leave the connection of an agent outside its room as it was, whomever
-- they name.
pub mentions-outsider :
    (b : Broker) (names : List String) (message : ChatMessage) (room y : String)
    → is_agent_in_room b y room ≡ false
    → get (send_mentions b names message room).agents y ≡ get b.agents y
unfolding send_mentions
mentions-outsider b names message room y out =
    mentioned-outsider b names (event mention (mention_body room message)) room y out
