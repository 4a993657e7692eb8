-- ===== src/Handler/Posts.antt =====
-- What agents say: messages, thinking pulses, and the decisions of leaders.
use clawdchat.Base.{ℕ, String, not, Option, none, some, [], ◌∷◌, ◌++◌, if◌then◌else◌}
use clawdchat.Map.{update, contains_key}
use clawdchat.Core.Json.{Json, text, object, field, end}
use clawdchat.Core.Errors.{invalid_payload, internal_error, not_in_room, not_leader}
use clawdchat.Core.Commands.{SendMessagePayload, ThinkingPayload, DecisionPayload}
use clawdchat.Core.Models.{ChatMessage}
use clawdchat.Core.Protocol.{
  Frame, message_received, thinking, decision_made, message_body, decision_body, posted_body, event,
  ok_frame, error_frame,
}
use clawdchat.Broker.{
  AgentConnection, is_empty, is_agent_in_room, broadcast_to_room, broadcast_to_room_all,
  send_mentions, advance_turn_from, next_ephemeral_seq,
}
use clawdchat.RateLimit.{increment_message}
use clawdchat.Store.Schema.{Result, ok, err}
use clawdchat.Store.Messages.{insert_message}
use clawdchat.Voting.Elections.{is_leader}
use clawdchat.Handler.{
  World, Request, guarded, check_message, reject_plaintext_in_encrypted_room, is_empty_text,
  broadcast_turn_changed,
}

-- Number the message, and store it unless its room is in memory only.
unfoldable pub record_message :
    World → Request → String → String → Option String → Json → World × Result ChatMessage
record_message w r room_id content reply_to metadata =
    let (b, seq) = next_ephemeral_seq w.broker room_id in
    let (s, stored) =
      insert_message w.store r.now r.fresh room_id r.agent_id r.agent_name content reply_to
        metadata in
    if contains_key w.ephemeral_rooms room_id
    then (
      record w { broker = b },
      ok (record {
        message_id = r.fresh;
        room_id = room_id;
        agent_id = r.agent_id;
        agent_name = r.agent_name;
        content = content;
        reply_to_message = reply_to;
        metadata = metadata;
        timestamp = r.now;
        seq = seq;
      }),
    )
    else (record w { store = s }, stored)

unfoldable pub report_recorded :
    Request → World → (World → ChatMessage → World) → Result ChatMessage → World × Frame
report_recorded r w publish (err e) = (w, error_frame r.req_id internal_error)
report_recorded r w publish (ok message) =
    (publish w message, ok_frame r.req_id (message_body message))

-- The checks of `send_message` and `thinking`, and then the message itself.
unfoldable pub accept_message :
    World
    → Request
    → String
    → String
    → Option String
    → Json
    → (World → ChatMessage → World)
    → World × Frame
unfolding record_message report_recorded
accept_message w r room_id content reply_to metadata publish =
    let (w', overuse) = check_message w r content in
    let (w'', recorded) = record_message w' r room_id content reply_to metadata in
    if not (is_agent_in_room w.broker r.agent_id room_id)
    then (w, error_frame r.req_id not_in_room)
    else guarded w
        (reject_plaintext_in_encrypted_room r.req_id content room_id w.ephemeral_rooms w.store)
        (guarded w' overuse (report_recorded r w'' publish recorded))

abbrev pub count_message : World → Request → World
count_message w r = record w {
  limiter =
      if is_empty_text r.api_key
      then w.limiter
      else increment_message w.limiter r.instant r.api_key;
}

abbrev pub seen_at : ℕ → AgentConnection → AgentConnection
seen_at now c = record c { info = record c.info { last_active = some now } }

-- Whoever has spoken passes the turn to the next.
unfoldable pub publish_message : Request → SendMessagePayload → World → ChatMessage → World
publish_message r p w message =
    let counted = count_message w r in
    let b = record w.broker { agents = update w.broker.agents r.agent_id (seen_at r.now) } in
    let told =
      broadcast_to_room b p.room_id r.agent_id (event message_received (message_body message)) in
    let pinged =
      if is_empty p.mentions then told else send_mentions told p.mentions message p.room_id in
    let (passed, _) = advance_turn_from pinged p.room_id r.agent_id in
    record counted {
      broker = broadcast_turn_changed passed p.room_id "message_sent";
      to_enqueue = w.to_enqueue ++ message ∷ [];
    }

unfoldable pub handle_send_message : World → Request → Option SendMessagePayload → World × Frame
handle_send_message w r none = (w, error_frame r.req_id invalid_payload)
handle_send_message w r (some p) =
    accept_message w r p.room_id p.content p.reply_to p.metadata (publish_message r p)

-- A pulse does not pass the turn.
unfoldable pub publish_thinking : Request → ThinkingPayload → World → ChatMessage → World
publish_thinking r p w message = record (count_message w r) {
  broker = broadcast_to_room w.broker p.room_id r.agent_id (event thinking (message_body message));
  to_enqueue = w.to_enqueue ++ message ∷ [];
}

unfoldable pub handle_thinking : World → Request → Option ThinkingPayload → World × Frame
handle_thinking w r none = (w, error_frame r.req_id invalid_payload)
handle_thinking w r (some p) =
    accept_message w r p.room_id p.content none (object (field "type" (text "thinking") end))
      (publish_thinking r p)

unfoldable pub decision_metadata : Request → Json
decision_metadata r =
    object (field "type" (text "decision") (field "decided_by" (text r.agent_id) end))

unfoldable pub announce_decision : World → Request → DecisionPayload → World × Frame
announce_decision w r p = (
  record w {
    broker = broadcast_to_room_all w.broker p.room_id (
        event decision_made
          (decision_body p.room_id r.fresh r.agent_id r.agent_name p.content p.metadata r.now));
  },
  ok_frame r.req_id (posted_body r.fresh p.room_id),
)

unfoldable pub report_decision :
    World → Request → DecisionPayload → Result ChatMessage → World × Frame
unfolding announce_decision
report_decision w r p (err e) = (w, error_frame r.req_id internal_error)
report_decision w r p (ok message) = announce_decision w r p

-- The sender must be a member, and the leader, and must not post plaintext to an encrypted room.
unfoldable pub check_decision : World → Request → DecisionPayload → Option Frame
check_decision w r p =
    if not (is_agent_in_room w.broker r.agent_id p.room_id)
    then some (error_frame r.req_id not_in_room)
    else if not (is_leader w.votes p.room_id r.agent_id)
    then some (error_frame r.req_id not_leader)
    else reject_plaintext_in_encrypted_room r.req_id p.content p.room_id w.ephemeral_rooms w.store

unfoldable pub store_decision : World → Request → DecisionPayload → World × Frame
unfolding decision_metadata report_decision
store_decision w r p =
    let (s, stored) =
      insert_message w.store r.now r.fresh p.room_id r.agent_id r.agent_name p.content none
        (decision_metadata r) in
    report_decision (record w { store = s }) r p stored

unfoldable pub handle_decision : World → Request → Option DecisionPayload → World × Frame
unfolding announce_decision store_decision check_decision
handle_decision w r none = (w, error_frame r.req_id invalid_payload)
handle_decision w r (some p) = guarded w (check_decision w r p) (
    if contains_key w.ephemeral_rooms p.room_id
    then announce_decision w r p
    else store_decision w r p)
