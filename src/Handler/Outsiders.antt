-- ===== src/Handler/Outsiders.antt =====
-- What agents outside a room, and keys that do not own it, can do with it.
use clawdchat.Base.{
  ℕ, String, ◌≡◌, ◌≢◌, refl, Bool, false, Option, none, some, List, [], ◌∷◌, arith, contains,
  Bool-cases, inl, inr, differ, ◌∙◌,
}
use clawdchat.Map.{get, insert, keys_where, contains-keys_where}
use clawdchat.Core.Errors.{not_in_room}
use clawdchat.Core.Commands.{
  SendMessagePayload, ThinkingPayload, DecisionPayload, CreateVotePayload, AssignTaskPayload,
  SetTypingPayload, CreateRoomPayload,
}
use clawdchat.Core.Models.{Room}
use clawdchat.Core.Protocol.{Frame, error_frame}
use clawdchat.Broker.{Broker, AgentConnection, is_agent_in_room, send_to_agent}
use clawdchat.Broker.Delivery.{get-send_to_agent}
use clawdchat.Store.Schema.{Store, Result, ok, err}
use clawdchat.Store.Rooms.{create_room_with_visibility}
use clawdchat.Handler.{guarded, World, Request}
use clawdchat.Handler.Rooms.{
  handle_create_room, handle_leave_room, announce, announce_to, opened, check_room,
  create_ephemeral, create_permanent, check_parent, visibility_of, owner_of, may_know, report_made,
  ephemeral_room,
}
use clawdchat.Handler.Posts.{
  handle_send_message, handle_thinking, handle_decision, accept_message, check_decision,
}
use clawdchat.Handler.Polling.{handle_create_vote, handle_elect_leader, handle_decline_election}
use clawdchat.Handler.Work.{handle_assign_task, handle_set_typing}

-- The commands that ask for membership of a room.
pub data Command : Type 0 where
  leave elect decline : Command
  send : SendMessagePayload → Command
  think : ThinkingPayload → Command
  decide : DecisionPayload → Command
  open_vote : CreateVotePayload → Command
  assign : AssignTaskPayload → Command
  type : SetTypingPayload → Command

-- The room that a command is about; those with no payload are about a room that is given.
abbrev pub room_for : String → Command → String
room_for room (send p) = p.room_id
room_for room (think p) = p.room_id
room_for room (decide p) = p.room_id
room_for room (open_vote p) = p.room_id
room_for room (assign p) = p.room_id
room_for room (type p) = p.room_id
room_for room _ = room

unfoldable pub perform : World → Request → String → Command → World × Frame
perform w r room leave = handle_leave_room w r (some room)
perform w r room elect = handle_elect_leader w r (some room)
perform w r room decline = handle_decline_election w r (some room)
perform w r room (send p) = handle_send_message w r (some p)
perform w r room (think p) = handle_thinking w r (some p)
perform w r room (decide p) = handle_decision w r (some p)
perform w r room (open_vote p) = handle_create_vote w r (some p)
perform w r room (assign p) = handle_assign_task w r (some p)
perform w r room (type p) = handle_set_typing w r (some p)

-- An agent outside a room that asks to leave it, to elect its leader, to decline, to send, think or
-- decide there, to open a vote, to assign a task or to show that it types is refused as not in the
-- room, and nothing changes.
pub perform-outsider :
    (w : World) (r : Request) (room : String) (c : Command)
    → is_agent_in_room w.broker r.agent_id (room_for room c) ≡ false
    → perform w r room c ≡ (w, error_frame r.req_id not_in_room)
unfolding perform handle_leave_room handle_elect_leader handle_decline_election handle_send_message
    handle_thinking handle_decision handle_create_vote handle_assign_task handle_set_typing
    accept_message check_decision
perform-outsider w r room leave h = rw h refl
perform-outsider w r room elect h = rw h refl
perform-outsider w r room decline h = rw h refl
perform-outsider w r room (send p) h = rw h refl
perform-outsider w r room (think p) h = rw h refl
perform-outsider w r room (decide p) h = rw h refl
perform-outsider w r room (open_vote p) h = rw h refl
perform-outsider w r room (assign p) h = rw h refl
perform-outsider w r room (type p) h = rw h refl

pub private_public : ◌≢◌ {A = String} "private" "public"
private_public = differ "private" "public" refl

announce_to-outsider :
    (b : Broker) (names : List String) (f : Frame) (y : String)
    → contains names y ≡ false
    → get (announce_to b names f).agents y ≡ get b.agents y
unfolding announce_to contains
announce_to-outsider b [] f y h = refl
announce_to-outsider b (a ∷ names) f y h =
    ground
      (arith, h, announce_to-outsider (send_to_agent b a f) names f y, get-send_to_agent b a f y)

-- News of a private room goes to no connection that uses another key than its owner's.
pub announce-outsider :
    (b : Broker) (key : String) (f : Frame) (y : String) (c : AgentConnection)
    → get b.agents y ≡ some c
    → c.api_key ≢ key
    → get (announce b false "private" key f).agents y ≡ some c
unfolding announce
announce-outsider b key f y c e k =
    let entitled : AgentConnection → Bool = may_know false "private" key in
    announce_to-outsider b (keys_where entitled b.agents) f y
      (contains-keys_where entitled b.agents y ∙ rw e (ground (arith, k, private_public)))
    ∙ e

-- A connection is as it was.
abbrev Unseen : String → AgentConnection → World → Type 0
Unseen y c w = get w.broker.agents y ≡ some c

guarded-Unseen :
    (y : String) (c : AgentConnection) (w : World) (o : Option Frame) (rest : World × Frame)
    → Unseen y c w
    → Unseen y c rest.0
    → Unseen y c (guarded w o rest).0
guarded-Unseen y c w none rest h h' = h'
guarded-Unseen y c w (some f) rest h h' = h

made-visibility :
    (s : Store) (now : ℕ) (id name : String) (description parent created_by : Option String)
    (visibility : String) (owner : Option String) (encrypted : Bool) (room : Room)
    → (create_room_with_visibility s now id name description parent created_by visibility owner
        encrypted).1
      ≡ ok room
    → room.visibility ≡ visibility
unfolding create_room_with_visibility
made-visibility s now id name description parent created_by visibility owner encrypted room h =
    ground (arith, h)

module _ (r : Request) (y : String) (c : AgentConnection) (n : r.no_auth ≡ false)
    (k : c.api_key ≢ r.api_key) where
  opened-Unseen :
      (w : World) (room : Room)
      → room.visibility ≡ "private"
      → Unseen y c w
      → Unseen y c (opened w r room).0
  unfolding opened
  opened-Unseen w room v e = rw (n, v) (announce-outsider w.broker r.api_key _ y c e k)

  ephemeral-Unseen :
      (w : World) (p : CreateRoomPayload)
      → p.is_public ≡ false
      → Unseen y c w
      → Unseen y c (create_ephemeral w r p).0
  unfolding create_ephemeral
  ephemeral-Unseen w p v e =
      let room = ephemeral_room r p in
      opened-Unseen (record w { ephemeral_rooms = insert w.ephemeral_rooms r.fresh room }) room
        (unfold ephemeral_room visibility_of in rw v refl) e

  report_made-Unseen :
      (w : World) (o : Result Room)
      → ((room : Room) → o ≡ ok room → room.visibility ≡ "private")
      → Unseen y c w
      → Unseen y c (report_made w r o).0
  unfolding report_made
  report_made-Unseen w (ok room) h e = opened-Unseen w room (h room refl) e
  report_made-Unseen w (err x) h e = e

  permanent-Unseen :
      (w : World) (p : CreateRoomPayload)
      → p.is_public ≡ false
      → Unseen y c w
      → Unseen y c (create_permanent w r p).0
  unfolding create_permanent
  permanent-Unseen w p v e =
      let made : Store × Result Room =
        create_room_with_visibility w.store r.now r.fresh p.name p.description p.parent_id
          (some r.agent_id) (visibility_of p.is_public) (owner_of r.api_key) p.encrypted in
      report_made-Unseen (record w { store = made.0 }) made.1
        (λ room h.
          made-visibility w.store r.now r.fresh p.name p.description p.parent_id (some r.agent_id)
            (visibility_of p.is_public) (owner_of r.api_key) p.encrypted room h
          ∙ unfold visibility_of in rw v refl)
        e

-- Where keys are checked, creating a private room, whether it succeeds or not, sends nothing to a
-- connection that uses another key than the creator's.
pub create_room-unseen :
    (w : World) (r : Request) (p : CreateRoomPayload) (y : String) (c : AgentConnection)
    → r.no_auth ≡ false
    → p.is_public ≡ false
    → get w.broker.agents y ≡ some c
    → c.api_key ≢ r.api_key
    → get (handle_create_room w r (some p)).0.broker.agents y ≡ some c
unfolding handle_create_room ephemeral_room
create_room-unseen w r p y c n v e k =
    let w' = (check_room w r).0 in
    let e' : Unseen y c w' = unfold check_room in ground (arith, e) in
    guarded-Unseen y c w' (check_room w r).1 _ e' (elim (Bool-cases p.ephemeral) [
      | inl t ↦ rw t (ephemeral-Unseen r y c n k w' p v e')
      | inr t ↦ rw t (
          guarded-Unseen y c w' (check_parent w' r p.parent_id) _ e'
            (permanent-Unseen r y c n k w' p v e'))
    ])
