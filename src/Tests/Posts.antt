-- ===== src/Tests/Posts.antt =====
-- Handlers and webhooks.
use clawdchat.Base.{
  ◌∷◌, ℕ, ◌≤◌, ◌≡◌, ◌≢◌, refl, String, true, false, none, some, [], dec_eq, arith, differ,
}
use clawdchat.Map.{get, empty, insert}
use clawdchat.Core.Json.{null}
use clawdchat.Core.Commands.{SendMessagePayload, CreateRoomPayload}
use clawdchat.Broker.{is_agent_in_room, new_broker}
use clawdchat.Broker.Members.{run, joins}
use clawdchat.RateLimit.{new_limiter}
use clawdchat.Store.Schema.{Store, DeliveryRow}
use clawdchat.Voting.Polls.{new_manager}
use clawdchat.Broker.Members.{run}
use clawdchat.Handler.{World, Request}
use clawdchat.Handler.Rooms.{handle_create_room}
use clawdchat.Handler.Outsiders.{create_room-unseen}
use clawdchat.Handler.Departure.{Server, tear_down}
use clawdchat.Handler.Cleanup.{tear_down_gone}
use clawdchat.Reconnect.{new_manager as new_stashes}
use clawdchat.Voting.Elections.{get_leader}
use clawdchat.Handler.Sealed.{IsSealed, send, post, post-IsSealed}
use clawdchat.Webhooks.{Attempt, accepted, retry_or_fail, process_delivery, enqueue_for_message}
use clawdchat.Webhooks.Laws.{
  cursor, cursor-process_delivery, backoff, IsQueuedOnce, enqueue_for_message-IsQueuedOnce,
}
use clawdchat.Tests.Fixtures.{arrivals, arrivals, connection, houses, room_named, said}

abbrev pub world : World
world = record {
  broker = record new_broker { agents = insert empty "bob" (connection "k2") };
  store = houses;
  ephemeral_rooms = empty;
  votes = new_manager;
  limiter = new_limiter;
  tasks = record { tasks = empty };
  to_enqueue = [];
}

abbrev pub from : String → Request
from key = record {
  req_id = none;
  agent_id = "ann";
  agent_name = "Ann";
  api_key = key;
  no_auth = false;
  now = 0;
  instant = 0;
  fresh = "f1";
}

abbrev den : CreateRoomPayload
den = record {
  name = "den";
  description = none;
  parent_id = none;
  ephemeral = true;
  is_public = false;
  encrypted = true;
}

create_room-unseen_example :
    get (handle_create_room world (from "k1") (some den)).0.broker.agents "bob"
    ≡ some (connection "k2")
unfolding get insert empty dec_eq
create_room-unseen_example =
    create_room-unseen world (from "k1") den "bob" (connection "k2") refl refl refl
      (differ "k2" "k1" refl)

-- Ann is in the lobby.
abbrev entered : World
entered = record world { broker = run new_broker arrivals }

-- Ann sits in a room that is encrypted from end to end.
abbrev vault : World
vault = record entered {
  broker = run entered.broker (joins "ann" "vault" ∷ []);
  store = record houses {
    rooms =
        insert houses.rooms "vault"
          (record (room_named "vault" "public" none) { encrypted = true });
  };
}

vault-IsSealed : IsSealed vault
unfolding get empty
vault-IsSealed id = refl

abbrev hello : SendMessagePayload
hello = record {
  room_id = "vault";
  content = "clw1:AQID";
  reply_to = none;
  metadata = null;
  mentions = [];
}

post-IsSealed_example : IsSealed (post vault (from "k1") (send (some hello))).0
post-IsSealed_example = post-IsSealed vault (from "k1") (send (some hello)) vault-IsSealed

abbrev server : Server
server = record { world = entered; stashes = new_stashes }

tear_down_gone_example :
    let w = (tear_down server false "ann").world in
    (is_agent_in_room w.broker "ann" "lobby" ≡ false)
    × (get_leader w.votes "lobby" ≢ some "ann")
    × (get w.broker.agents "ann" ≡ none)
tear_down_gone_example = tear_down_gone server false "ann" "lobby"

abbrev delivery : ℕ → DeliveryRow
delivery n = record {
  delivery_id = "d1";
  subscription_id = "s1";
  message_seq = 1;
  message_id = "m1";
  next_attempt_at = 0;
  attempts = n;
  last_error = none;
}

-- The lobby's message, and a subscription to the lobby.
abbrev hooked : Store
hooked = record houses {
  messages = insert empty "m1" said;
  subscriptions = insert empty "s1" (record {
    sub = record {
      subscription_id = "s1";
      room_id = "lobby";
      webhook_url = "https://example.org";
      kinds = [];
      only_from = none;
      not_from = none;
      exclude_thinking = false;
      since_seq = 0;
      last_delivered_seq = 0;
      status = "active";
      failure_count = 0;
      created_at = 0;
    };
    owner_key = "k1";
    secret = "s";
  });
}

cursor-process_delivery_example :
    cursor hooked "s1" ≤ cursor (process_delivery hooked 0 (delivery 0) accepted) "s1"
cursor-process_delivery_example = cursor-process_delivery hooked 0 (delivery 0) accepted "s1"

hooked-IsQueuedOnce : IsQueuedOnce hooked
unfolding clawdchat.Webhooks.Laws.queued
hooked-IsQueuedOnce id seq = omega arith

enqueue_for_message-IsQueuedOnce_example :
    IsQueuedOnce (enqueue_for_message hooked 0 (λ id. id) said)
enqueue_for_message-IsQueuedOnce_example =
    enqueue_for_message-IsQueuedOnce hooked 0 (λ id. id) said hooked-IsQueuedOnce
