-- ===== src/Store/Rooms.antt =====
-- Rooms and the tiers of API keys.
use clawdchat.Base.{
  ℕ, String, Bool, false, ◌||◌, not, Option, none, some, any, same, is_some_of, if◌then◌else◌,
}
use clawdchat.Map.{get, insert, contains_key, values}
use clawdchat.Core.Models.{Room}
use clawdchat.Store.Schema.{Store, Result, ok, err, db_error, room_name_taken, query}

unfoldable pub get_room : Store → String → Result (Option Room)
get_room s room_id = query s (get s.rooms room_id)

-- `parent_id REFERENCES rooms`, where there is a parent.
abbrev pub parent_missing : Store → Option String → Bool
parent_missing s none = false
parent_missing s (some p) = not (contains_key s.rooms p)

unfoldable pub name_taken : Store → String → Bool
name_taken s name = any (λ (r : Room). same r.name name) (values s.rooms)

unfoldable pub create_room_with_visibility :
    Store
    → ℕ
    → String
    → String
    → Option String
    → Option String
    → Option String
    → String
    → Option String
    → Bool
    → Store × Result Room
create_room_with_visibility s now room_id name description parent_id created_by visibility owner_key
      encrypted =
    let room : Room = record {
      room_id = room_id;
      name = name;
      description = description;
      parent_id = parent_id;
      ephemeral = false;
      created_at = now;
      created_by = created_by;
      visibility = visibility;
      owner_key = owner_key;
      last_activity = none;
      member_count = none;
      encrypted = encrypted;
    } in
    if not s.available || is_some_of parent_id room_id || contains_key s.rooms room_id
    then (s, err db_error)
    else if name_taken s name
    then (s, err (room_name_taken name))
    else if parent_missing s parent_id
    then (s, err db_error)
    else (record s { rooms = insert s.rooms room_id room }, ok room)

-- A key that is not listed is an error here; the callers take its tier to be `free`.
unfoldable pub get_key_tier : Store → String → Result String
get_key_tier s api_key =
    if s.available
    then elim (get s.api_keys api_key) [ none ↦ err db_error | some tier ↦ ok tier ]
    else err db_error

unfoldable pub validate_api_key : Store → String → Result Bool
validate_api_key s api_key = query s (contains_key s.api_keys api_key)
