-- ===== src/Handler/Rooms.antt =====
-- Creating, joining and leaving rooms, and the news of rooms that come and go.
use clawdchat.Base.{
  String, Bool, true, false, ◌&&◌, ◌||◌, not, Option, none, some, List, [], ◌∷◌, same, is_some,
  or_else, adjoin, without, if◌then◌else◌,
}
use clawdchat.Map.{get, insert, remove, update, keys_where}
use clawdchat.Core.Errors.{
  ErrorCode, invalid_payload, rate_limit_rooms, room_name_taken, internal_error, room_not_found,
  access_denied, not_in_room,
}
use clawdchat.Core.Commands.{CreateRoomPayload}
use clawdchat.Core.Models.{Room}
use clawdchat.Core.Protocol.{
  Frame, room_created, room_destroyed, agent_joined, agent_left, room_body, room_id_body,
  joined_body, left_body, event, ok_frame, error_frame,
}
use clawdchat.Broker.{
  Broker, AgentConnection, send_to_agent, broadcast_to_room, is_agent_in_room, join_room,
  leave_room, remove_room, forget_ephemeral_seq,
}
use clawdchat.RateLimit.{check_room_limit, add_room}
use clawdchat.Store.Schema.{Result, ok, err, StoreError}
use clawdchat.Store.Rooms.{create_room_with_visibility}
use clawdchat.Handler.{
  World, Request, granted, refused, authorize_room, find_room, guarded, is_empty_text, limits_of,
  broadcast_turn_changed,
}

unfoldable pub announce_to : Broker → List String → Frame → Broker
announce_to b [] f = b
announce_to b (a ∷ rest) f = announce_to (send_to_agent b a f) rest f

abbrev pub may_know : Bool → String → String → AgentConnection → Bool
may_know no_auth visibility key c = no_auth || (same visibility "public" || same c.api_key key)

-- Send a frame to the connections that may know of a room: all of them if the room is public, and
-- else those that use its owner's key.
unfoldable pub announce : Broker → Bool → String → String → Frame → Broker
unfolding announce_to
announce b no_auth visibility key f =
    announce_to b (keys_where (may_know no_auth visibility key) b.agents) f

unfoldable pub check_room : World → Request → World × Option Frame
check_room w r =
    let (limiter, fits) =
      check_room_limit w.limiter r.instant r.api_key (limits_of w.store r.api_key) in
    if r.no_auth || is_empty_text r.api_key then (w, none) else (
      record w { limiter = limiter },
      if fits then none else some (error_frame r.req_id rate_limit_rooms),
    )

unfoldable pub owner_of : String → Option String
owner_of api_key = if is_empty_text api_key then none else some api_key

unfoldable pub visibility_of : Bool → String
visibility_of true = "public"
visibility_of false = "private"

-- A room that was made: count it, and tell those who may know.
unfoldable pub opened : World → Request → Room → World × Frame
unfolding announce
opened w r room = (
  record w {
    limiter = if is_empty_text r.api_key then w.limiter else add_room w.limiter r.instant r.api_key;
    broker =
        announce w.broker r.no_auth room.visibility r.api_key (event room_created (room_body room));
  },
  ok_frame r.req_id (room_body room),
)

-- The parent of a permanent room must be one that the sender may read.
unfoldable pub check_parent : World → Request → Option String → Option Frame
check_parent w r none = none
check_parent w r (some parent) =
    elim (authorize_room r.req_id parent r.api_key r.no_auth w.store w.ephemeral_rooms) [
      | granted room ↦ none
      | refused f ↦ some f
    ]

unfoldable pub ephemeral_room : Request → CreateRoomPayload → Room
unfolding owner_of visibility_of
ephemeral_room r p = record {
  room_id = r.fresh;
  name = p.name;
  description = p.description;
  parent_id = p.parent_id;
  ephemeral = true;
  created_at = r.now;
  created_by = some r.agent_id;
  visibility = visibility_of p.is_public;
  owner_key = owner_of r.api_key;
  last_activity = none;
  member_count = none;
  encrypted = p.encrypted;
}

unfoldable pub create_ephemeral : World → Request → CreateRoomPayload → World × Frame
unfolding opened
create_ephemeral w r p =
    let room = ephemeral_room r p in
    opened (record w { ephemeral_rooms = insert w.ephemeral_rooms r.fresh room }) r room

unfoldable pub created_code : StoreError → ErrorCode
created_code (StoreError.room_name_taken name) = room_name_taken
created_code _ = internal_error

unfoldable pub report_made : World → Request → Result Room → World × Frame
unfolding opened created_code
report_made w r (ok room) = opened w r room
report_made w r (err e) = (w, error_frame r.req_id (created_code e))

unfoldable pub create_permanent : World → Request → CreateRoomPayload → World × Frame
unfolding owner_of visibility_of report_made
create_permanent w r p =
    let (s, made) =
      create_room_with_visibility w.store r.now r.fresh p.name p.description p.parent_id
        (some r.agent_id) (visibility_of p.is_public) (owner_of r.api_key) p.encrypted in
    report_made (record w { store = s }) r made

unfoldable pub handle_create_room : World → Request → Option CreateRoomPayload → World × Frame
unfolding check_room create_ephemeral check_parent create_permanent
handle_create_room w r none = (w, error_frame r.req_id invalid_payload)
handle_create_room w r (some p) =
    let (w', refusal) = check_room w r in
    guarded w' refusal (
      if p.ephemeral
      then create_ephemeral w' r p
      else guarded w' (check_parent w' r p.parent_id) (create_permanent w' r p))

-- A private room without an owner is open to all here.
unfoldable pub may_join : String → Bool → Room → Bool
may_join api_key no_auth room =
    no_auth
    || (not (same room.visibility "private")
        || (elim room.owner_key [ none ↦ true | some owner ↦ same owner api_key ]))

abbrev pub track : String → AgentConnection → AgentConnection
track room_id c = record c { rooms = adjoin c.rooms room_id }

abbrev pub untrack : String → AgentConnection → AgentConnection
untrack room_id c = record c { rooms = without c.rooms room_id }

-- The agent becomes a member, and the members are told.
unfoldable pub admit : Broker → String → String → String → Broker
admit b agent_id agent_name room_id =
    let (b', outcome) = join_room b agent_id room_id in
    let b'' =
      broadcast_to_room (record b' { agents = update b'.agents agent_id (track room_id) }) room_id
        agent_id (event agent_joined (joined_body room_id agent_id agent_name)) in
    if is_some outcome.new_holder then broadcast_turn_changed b'' room_id "joined" else b''

unfoldable pub handle_join_room : World → Request → Option String → World × Frame
handle_join_room w r none = (w, error_frame r.req_id invalid_payload)
handle_join_room w r (some room_id) = elim (find_room w.ephemeral_rooms w.store room_id) [
  | none ↦ (w, error_frame r.req_id room_not_found)
  | some room ↦
      if not (may_join r.api_key r.no_auth room)
      then (w, error_frame r.req_id access_denied)
      else if is_agent_in_room w.broker r.agent_id room_id
      then (w, ok_frame r.req_id (room_id_body room_id))
      else (
        record w { broker = admit w.broker r.agent_id r.agent_name room_id },
        ok_frame r.req_id (room_id_body room_id),
      )
]

unfoldable pub destroy_found : World → Bool → String → Option Room → World
destroy_found w no_auth room_id none = w
destroy_found w no_auth room_id (some room) = record w {
  ephemeral_rooms = remove w.ephemeral_rooms room_id;
  broker =
      announce (forget_ephemeral_seq (remove_room w.broker room_id) room_id) no_auth room.visibility
        (or_else room.owner_key "") (event room_destroyed (room_id_body room_id));
}

-- Destroy a room in memory whose last member has gone.
unfoldable pub destroy_if_empty : World → Bool → String → Bool → World
unfolding destroy_found
destroy_if_empty w no_auth room_id false = w
destroy_if_empty w no_auth room_id true =
    destroy_found w no_auth room_id (get w.ephemeral_rooms room_id)

-- The agent stops being a member; those who stay are told of it before, and of a new turn after.
unfoldable pub release : Broker → String → String → Broker × Bool
release b agent_id room_id =
    let told =
      broadcast_to_room b room_id agent_id (event agent_left (left_body room_id agent_id)) in
    let (b', outcome) = leave_room told agent_id room_id in
    let b'' = record b' { agents = update b'.agents agent_id (untrack room_id) } in
    (
      if outcome.holder_changed && not outcome.now_empty
          then broadcast_turn_changed b'' room_id "left"
          else b'',
      outcome.now_empty,
    )

unfoldable pub handle_leave_room : World → Request → Option String → World × Frame
handle_leave_room w r none = (w, error_frame r.req_id invalid_payload)
handle_leave_room w r (some room_id) =
    let (b, now_empty) = release w.broker r.agent_id room_id in
    if not (is_agent_in_room w.broker r.agent_id room_id)
    then (w, error_frame r.req_id not_in_room)
    else (
      destroy_if_empty (record w { broker = b }) r.no_auth room_id now_empty,
      ok_frame r.req_id (room_id_body room_id),
    )
