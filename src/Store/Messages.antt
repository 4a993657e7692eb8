-- ===== src/Store/Messages.antt =====
-- Messages and the durable sequence numbers of their rooms.
use clawdchat.Base.{
  ℕ, ◌+◌, String, Bool, false, ◌&&◌, ◌||◌, not, Option, none, some, same, ltb, leb, or_else, length,
  if◌then◌else◌,
}
use clawdchat.Map.{get, insert, contains_key, retain, update_all, keys_where, Map}
use clawdchat.Core.Json.{Json}
use clawdchat.Core.Models.{ChatMessage}
use clawdchat.Store.Schema.{Store, Result, ok, err, db_error, query}

unfoldable pub room_tip : Store → String → Result ℕ
room_tip s room_id = query s (or_else (get s.room_sequences room_id) 0)

-- `reply_to_message REFERENCES messages`, where there is one.
abbrev pub reply_missing : Store → Option String → Bool
reply_missing s none = false
reply_missing s (some m) = not (contains_key s.messages m)

-- The database is down, or a constraint or the trigger before the insert refuses the row.
abbrev pub is_refused : Store → String → String → Option String → ℕ → ℕ → Bool
is_refused s message_id room_id reply_to seq high_water =
    not s.available
    || not (contains_key s.rooms room_id)
    || leb seq high_water
    || contains_key s.messages message_id
    || reply_missing s reply_to

-- One transaction: a statement that fails undoes the allocation of the number. The trigger before
-- the insert refuses a number at or below the high-water mark, the one after it raises the mark.
unfoldable pub insert_message :
    Store
    → ℕ
    → String
    → String
    → String
    → String
    → String
    → Option String
    → Json
    → Store × Result ChatMessage
insert_message s now message_id room_id agent_id agent_name content reply_to metadata =
    let high_water = or_else (get s.room_sequences room_id) 0 in
    let seq = high_water + 1 in
    let message : ChatMessage = record {
      message_id = message_id;
      room_id = room_id;
      agent_id = agent_id;
      agent_name = agent_name;
      content = content;
      reply_to_message = reply_to;
      metadata = metadata;
      timestamp = now;
      seq = seq;
    } in
    if is_refused s message_id room_id reply_to seq high_water then (s, err db_error) else (
      record s {
        room_sequences =
            insert s.room_sequences room_id (if ltb high_water seq then seq else high_water);
        messages = insert s.messages message_id message;
      },
      ok message,
    )

-- The tier of the key that owns a message's room; a room with no known owner counts as `free`.
abbrev pub tier_of_owner : Store → Option String → String
tier_of_owner s none = "free"
tier_of_owner s (some key) = or_else (get s.api_keys key) "free"

abbrev pub is_purged : Store → String → ℕ → ChatMessage → Bool
is_purged s tier cutoff m = elim (get s.rooms m.room_id) [
  | none ↦ false
  | some room ↦ same (tier_of_owner s room.owner_key) tier && ltb m.timestamp cutoff
]

-- `ON DELETE SET NULL`: a reply to what is gone loses its link.
abbrev pub unlinked : Map ChatMessage → Option String → Option String
unlinked left none = none
unlinked left (some m) = if contains_key left m then some m else none

-- `cutoff` is the time that the age modifier stands for.
unfoldable pub purge_messages_by_tier : Store → String → ℕ → Store × Result ℕ
purge_messages_by_tier s tier cutoff =
    let left = retain (λ m. not (is_purged s tier cutoff m)) s.messages in
    if s.available
    then (
      record s {
        messages =
            update_all (λ m. record m { reply_to_message = unlinked left m.reply_to_message }) left;
      },
      ok (length (keys_where (is_purged s tier cutoff) s.messages)),
    )
    else (s, err db_error)

unfoldable pub get_message : Store → String → Result (Option ChatMessage)
get_message s message_id = query s (get s.messages message_id)
