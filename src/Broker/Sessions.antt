-- ===== src/Broker/Sessions.antt =====
-- Joining and sending leave every connection with its session.
use clawdchat.Base.{
  String, ◌≡◌, refl, ◌∙◌, Option, none, some, List, [], ◌∷◌, arith, ap, if_pos, if_neg, dec_eq,
  or_else, without,
}
use clawdchat.Map.{get, update, get-update, changed}
use clawdchat.Core.Protocol.{Frame}
use clawdchat.Broker.{
  Broker, AgentConnection, deliver, send_to_agent, send_to_all, broadcast_to_room, join_room,
}

abbrev pub session_of : Option AgentConnection → Option String
session_of none = none
session_of (some c) = some c.session_id

-- The session by which an agent is registered.
abbrev pub session : Broker → String → Option String
session b a = session_of (get b.agents a)

session-changed :
    (f : AgentConnection → AgentConnection) (o : Option AgentConnection)
    → ((c : AgentConnection) → (f c).session_id ≡ c.session_id)
    → session_of (changed f o) ≡ session_of o
session-changed f none keeps = refl
session-changed f (some c) keeps = ap some (keeps c)

pub session-update :
    (b : Broker) (k : String) (f : AgentConnection → AgentConnection) (a : String)
    → ((c : AgentConnection) → (f c).session_id ≡ c.session_id)
    → session (record b { agents = update b.agents k f }) a ≡ session b a
session-update b k f a keeps = elim (dec_eq k a) [
  | yes e ↦
      ap session_of (get-update b.agents k f a)
      ∙ rw (if_pos _ e)
          (session-changed f (get b.agents k) keeps ∙ ap (λ i. session_of (get b.agents i)) e)
  | no n ↦ ap session_of (get-update b.agents k f a) ∙ rw (if_neg _ n) refl
]

session-deliver : (f : Frame) (c : AgentConnection) → (deliver f c).session_id ≡ c.session_id
unfolding deliver
session-deliver f c = ground arith

session-send_to_all :
    (b : Broker) (to : List String) (f : Frame) (a : String)
    → session (send_to_all b to f) a ≡ session b a
unfolding send_to_all send_to_agent
session-send_to_all b [] f a = refl
session-send_to_all b (x ∷ rest) f a =
    session-send_to_all (send_to_agent b x f) rest f a
    ∙ session-update b x (deliver f) a (session-deliver f)

pub session-broadcast :
    (b : Broker) (room_id sender : String) (f : Frame) (a : String)
    → session (broadcast_to_room b room_id sender f) a ≡ session b a
unfolding broadcast_to_room
session-broadcast b room_id sender f a =
    session-send_to_all b (without (or_else (get b.room_members room_id) []) sender) f a

pub session-join_room :
    (b : Broker) (x room_id a : String) → session (join_room b x room_id).0 a ≡ session b a
unfolding join_room
session-join_room b x room_id a = ground arith
