-- ===== src/Handler/Cleanup.antt =====
-- What is left of an agent once its connection has been torn down.
use clawdchat.Base.{
  String, ◌≡◌, ◌≢◌, ◌∙◌, ap, sym, Bool, true, false, ◌&&◌, not, Option, none, some, List, [], ◌∷◌,
  arith, same, contains, or_else, if◌then◌else◌,
}
use clawdchat.Map.{get, remove, get-remove, keys_where}
use clawdchat.Core.Models.{Room}
use clawdchat.Core.Protocol.{Frame, leader_cleared, event, cleared_body}
use clawdchat.Broker.{
  Broker, LeaveOutcome, is_agent_in_room, get_room_members, send_to_agent, broadcast_to_room_all,
  leave_all_rooms, remove_room, forget_ephemeral_seq,
}
use clawdchat.Broker.Seats.{Seats, seats, seats-remove_room}
use clawdchat.Broker.Turns.{in_room-leave_all_rooms}
use clawdchat.Broker.Delivery.{seats-broadcast_to_room_all}
use clawdchat.Voting.Polls.{VoteManager}
use clawdchat.Voting.Elections.{clear_leader, clear_each, clear_leader_if_agent, get_leader}
use clawdchat.Voting.Leaders.{unless_led_by, get_leader-clear_leader_if_agent}
use clawdchat.Handler.{World, broadcast_turn_changed}
use clawdchat.Handler.Rooms.{announce, announce_to, destroy_if_empty, destroy_found, may_know}
use clawdchat.Handler.Departure.{Server, after_leaving, after_each, tear_down}

-- The agent is in no room.
abbrev IsGone : String → Broker → Type 0
IsGone a b = (r : String) → is_agent_in_room b a r ≡ false

same_seats :
    (a : String) (b c : Broker) → ((r : String) → seats c r ≡ seats b r) → IsGone a b → IsGone a c
unfolding is_agent_in_room get_room_members
same_seats a b c e h r = ap (λ (s : Seats). contains s.members a) (e r) ∙ h r

broadcast-IsGone :
    (a : String) (b : Broker) (room : String) (f : Frame)
    → IsGone a b
    → IsGone a (broadcast_to_room_all b room f)
broadcast-IsGone a b room f h =
    same_seats a b (broadcast_to_room_all b room f) (seats-broadcast_to_room_all b room f) h

turn_changed-IsGone :
    (a : String) (b : Broker) (room reason : String)
    → IsGone a b
    → IsGone a (broadcast_turn_changed b room reason)
unfolding broadcast_turn_changed
turn_changed-IsGone a b room reason h = broadcast-IsGone a b room _ h

announce_to-IsGone :
    (a : String) (b : Broker) (names : List String) (f : Frame)
    → IsGone a b
    → IsGone a (announce_to b names f)
unfolding announce_to
announce_to-IsGone a b [] f h = h
announce_to-IsGone a b (x ∷ names) f h =
    announce_to-IsGone a (send_to_agent b x f) names f (unfold send_to_agent is_agent_in_room in h)

announce-IsGone :
    (a : String) (b : Broker) (no_auth : Bool) (visibility key : String) (f : Frame)
    → IsGone a b
    → IsGone a (announce b no_auth visibility key f)
unfolding announce
announce-IsGone a b no_auth visibility key f h =
    announce_to-IsGone a b (keys_where (may_know no_auth visibility key) b.agents) f h

removed-IsGone :
    (a : String) (b : Broker) (room : String) → IsGone a b → IsGone a (remove_room b room)
unfolding is_agent_in_room get_room_members contains
removed-IsGone a b room h r =
    ap (λ (s : Seats). contains s.members a) (seats-remove_room b room r) ∙ ground (arith, h r)

forgotten-IsGone :
    (a : String) (b : Broker) (room : String) → IsGone a b → IsGone a (forget_ephemeral_seq b room)
unfolding forget_ephemeral_seq is_agent_in_room
forgotten-IsGone a b room h = h

destroy-IsGone :
    (a : String) (w : World) (no_auth : Bool) (room : String) (now_empty : Bool)
    → IsGone a w.broker
    → IsGone a (destroy_if_empty w no_auth room now_empty).broker
unfolding destroy_if_empty
destroy-IsGone a w no_auth room false h = h
destroy-IsGone a w no_auth room true h = by_room (get w.ephemeral_rooms room)
  where
    by_room : (o : Option Room) → IsGone a (destroy_found w no_auth room o).broker
    by_room none = unfold destroy_found in h
    by_room (some x) =
        unfold destroy_found in
        announce-IsGone a (forget_ephemeral_seq (remove_room w.broker room) room) no_auth
          x.visibility (or_else x.owner_key "") _
          (forgotten-IsGone a (remove_room w.broker room) room (removed-IsGone a w.broker room h))

either-IsGone :
    (a : String) (t : Bool) (b c : Broker) → IsGone a b → IsGone a c → IsGone a (if t then b else c)
either-IsGone a true b c h k = h
either-IsGone a false b c h k = k

after_leaving-IsGone :
    (s : Server) (no_auth : Bool) (a room : String) (o : LeaveOutcome)
    → IsGone a s.world.broker
    → IsGone a (after_leaving s no_auth a room o).world.broker
unfolding after_leaving
after_leaving-IsGone s no_auth a room o h =
    let told = broadcast-IsGone a s.world.broker room _ h in
    destroy-IsGone a _ no_auth room o.now_empty (
      either-IsGone a (o.holder_changed && not o.now_empty) _ _
        (turn_changed-IsGone a _ room "disconnected" told) told)

after_each-IsGone :
    (s : Server) (no_auth : Bool) (a : String) (os : List (String × LeaveOutcome))
    → IsGone a s.world.broker
    → IsGone a (after_each s no_auth a os).world.broker
unfolding after_each
after_each-IsGone s no_auth a [] h = h
after_each-IsGone s no_auth a ((room, o) ∷ os) h =
    after_each-IsGone (after_leaving s no_auth a room o) no_auth a os
      (after_leaving-IsGone s no_auth a room o h)

clear_leader-IsGone :
    (a : String) (m : VoteManager) (b : Broker) (r : String)
    → IsGone a b
    → IsGone a (clear_leader m b r).1
unfolding clear_leader
clear_leader-IsGone a m b r h j =
    ground
      (arith, h j, broadcast-IsGone a b r (event leader_cleared (cleared_body r "leader left")) h j)

clear_each-IsGone :
    (a : String) (m : VoteManager) (b : Broker) (rs : List String)
    → IsGone a b
    → IsGone a (clear_each m b rs).1
unfolding clear_each
clear_each-IsGone a m b [] h = h
clear_each-IsGone a m b (r ∷ rs) h =
    clear_each-IsGone a (clear_leader m b r).0 (clear_leader m b r).1 rs
      (clear_leader-IsGone a m b r h)

not_led : (a : String) (o : Option String) → unless_led_by a o ≢ some a
not_led a none h = ground (arith, h)
not_led a (some x) h = ground (arith, h)

cleared-IsGone :
    (a : String) (m : VoteManager) (b : Broker)
    → IsGone a b
    → IsGone a (clear_leader_if_agent m b a).1
unfolding clear_leader_if_agent
cleared-IsGone a m b h =
    clear_each-IsGone a m b (keys_where (λ leader. same leader a) m.room_leaders) h

left-IsGone : (a : String) (b : Broker) → IsGone a (leave_all_rooms b a).0
left-IsGone a b r = ground (arith, in_room-leave_all_rooms b a a r)

unregistered-IsGone :
    (a : String) (b : Broker) → IsGone a b → IsGone a (record b { agents = remove b.agents a })
unfolding is_agent_in_room
unregistered-IsGone a b h = h

-- When an agent's connection is torn down, the agent is afterwards in no room, leads no room, and
-- is not registered.
pub tear_down_gone :
    (s : Server) (no_auth : Bool) (a r : String)
    → let w = (tear_down s no_auth a).world in
      (is_agent_in_room w.broker a r ≡ false)
      × (get_leader w.votes r ≢ some a)
      × (get w.broker.agents a ≡ none)
unfolding tear_down
tear_down_gone s no_auth a r =
    let left = leave_all_rooms s.world.broker a in
    let s' =
      after_each (record s { world = record s.world { broker = left.0 } }) no_auth a left.1 in
    let cleared = clear_leader_if_agent s'.world.votes s'.world.broker a in
    (
      unregistered-IsGone a cleared.1
          (cleared-IsGone a s'.world.votes s'.world.broker (
            after_each-IsGone (record s { world = record s.world { broker = left.0 } }) no_auth a
              left.1 (left-IsGone a s.world.broker)))
          r,
      λ h.
          not_led a (get_leader s'.world.votes r)
            (sym (get_leader-clear_leader_if_agent s'.world.votes s'.world.broker a r) ∙ h),
      ground (arith, get-remove cleared.1.agents a a),
    )
