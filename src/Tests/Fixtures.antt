-- ===== src/Tests/Fixtures.antt =====
-- Agents, rooms and messages to try theorems on.
use clawdchat.Base.{String, Option, none, some, List, [], ◌∷◌, true, false}
use clawdchat.Map.{empty, insert}
use clawdchat.Core.Json.{null}
use clawdchat.Core.Models.{AgentInfo, Room, ChatMessage}
use clawdchat.Core.Protocol.{Frame, agent_left, room_id_body, event}
use clawdchat.Broker.{AgentConnection, Channel}
use clawdchat.Broker.Members.{Call, joins}
use clawdchat.Store.Schema.{Store, no_rows}

abbrev pub ann_info : AgentInfo
ann_info = record {
  agent_id = "ann";
  name = "Ann";
  capabilities = [];
  connected_at = none;
  last_active = none;
  status = none;
  status_detail = none;
  progress = none;
}

abbrev pub roomy : Channel
roomy = record { waiting = []; capacity = 2; receiving = true }

abbrev pub connection : String → AgentConnection
connection key = record {
  info = ann_info;
  session_id = "s1";
  sender = roomy;
  disconnect = false;
  rooms = [];
  api_key = key;
}

-- Ann and then Bob enter the lobby.
abbrev pub arrivals : List Call
arrivals = joins "ann" "lobby" ∷ joins "bob" "lobby" ∷ []

abbrev pub room_named : String → String → Option String → Room
room_named id visibility owner = record {
  room_id = id;
  name = id;
  description = none;
  parent_id = none;
  ephemeral = false;
  created_at = 0;
  created_by = none;
  visibility = visibility;
  owner_key = owner;
  last_activity = none;
  member_count = none;
  encrypted = false;
}

-- The lobby, which is open to all, and the study, which is the key k1's own.
abbrev pub houses : Store
houses = record no_rows {
  rooms =
      insert (insert empty "lobby" (room_named "lobby" "public" none)) "study"
        (room_named "study" "private" (some "k1"));
}

abbrev pub said : ChatMessage
said = record {
  message_id = "m1";
  room_id = "lobby";
  agent_id = "ann";
  agent_name = "Ann";
  content = "hello";
  reply_to_message = none;
  metadata = null;
  timestamp = 0;
  seq = 1;
}

abbrev pub farewell : Frame
farewell = event agent_left (room_id_body "lobby")
