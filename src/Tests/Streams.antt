-- ===== src/Tests/Streams.antt =====
-- Message numbers, backlogs, the delivery worker and subscriptions.
use clawdchat.Base.{
  ℕ, ◌≡◌, refl, String, true, false, none, some, List, [], ◌∷◌, keep, if◌then◌else◌, same, dec_eq,
  differ, arith,
}
use clawdchat.Base.Sorting.{every}
use clawdchat.Base.Ascending.{beyond}
use clawdchat.Map.{empty, insert}
use clawdchat.Core.Json.{null}
use clawdchat.Core.Commands.{SubscribePayload, GetHistoryPayload}
use clawdchat.Core.Errors.{access_denied}
use clawdchat.Core.Models.{Subscription}
use clawdchat.Core.Protocol.{ok_frame, error_frame, deleted_body}
use clawdchat.Store.Schema.{Store, DeliveryRow}
use clawdchat.Store.Histories.{room_messages, seq_of}
use clawdchat.Store.Sequence.{NewMessage, Call, inserts, purges, run}
use clawdchat.Store.Numbering.{IsNumbered, run-IsNumbered}
use clawdchat.Webhooks.{accepted}
use clawdchat.Webhooks.Worker.{delivery_worker}
use clawdchat.Webhooks.Draining.{delivery_worker-drains}
use clawdchat.Handler.{World, Request, may_read}
use clawdchat.Handler.Rooms.{handle_join_room}
use clawdchat.Handler.Reads.{handle_room_tip, handle_list_tasks}
use clawdchat.Handler.Listings.{
  handle_get_history, handle_list_rooms, handle_list_agents, handle_room_info, handle_list_votes,
}
use clawdchat.Handler.Subscriptions.{
  Backlog, backfill, enqueue_backlog, handle_subscribe, handle_unsubscribe,
}
use clawdchat.Handler.Backfill.{backfill_lem}
use clawdchat.Handler.Subscribers.{subscribe-unsubscribe}
use clawdchat.Handler.Hidden.{private-refused, rooms_in, list_rooms-readable}
use clawdchat.Tests.Fixtures.{houses, room_named}
use clawdchat.Tests.Posts.{world, from}

abbrev greeting : NewMessage
greeting = record {
  now = 7;
  message_id = "m1";
  room_id = "lobby";
  agent_id = "ann";
  agent_name = "Ann";
  content = "hello";
  reply_to = none;
  metadata = null;
}

abbrev history : List Call
history = inserts greeting ∷ purges "free" 3 ∷ []

silent : IsNumbered houses
unfolding room_messages empty keep clawdchat.Map.values
silent r = (tt, tt)

run-IsNumbered_example : IsNumbered (run houses history)
run-IsNumbered_example = run-IsNumbered houses history silent

abbrev hook : Subscription
hook = record {
  subscription_id = "f1";
  room_id = "lobby";
  webhook_url = "https://example.org";
  kinds = [];
  only_from = none;
  not_from = none;
  exclude_thinking = false;
  since_seq = 0;
  last_delivered_seq = 0;
  status = "active";
  failure_count = 0;
  created_at = 0;
}

abbrev backlog : Backlog
backlog = record { now = 9; delivery_id = λ m. m.message_id; sub = hook }

backfill_lem_example :
    backfill 1 5 (run houses history) backlog 0
    ≡ enqueue_backlog
        (run houses history)
        backlog
        (keep (beyond seq_of 0) (room_messages (run houses history) "lobby"))
unfolding run clawdchat.Store.Sequence.call clawdchat.Store.Messages.purge_messages_by_tier
    clawdchat.Store.Messages.insert_message clawdchat.Map.contains_key clawdchat.Map.get insert
    empty dec_eq clawdchat.Handler.Subscriptions.backfill_fuel clawdchat.Map.values
    clawdchat.Map.update_all clawdchat.Map.retain
backfill_lem_example =
    backfill_lem 1 5 (run houses history) backlog 0 refl (run-IsNumbered houses history silent)
      (omega arith) (omega arith)

abbrev waiting : String → ℕ → DeliveryRow
waiting id seq = record {
  delivery_id = id;
  subscription_id = "f1";
  message_seq = seq;
  message_id = "m1";
  next_attempt_at = 0;
  attempts = 0;
  last_error = none;
}

abbrev queue : Store
queue = record houses { subscription_deliveries = waiting "d2" 2 ∷ waiting "d1" 1 ∷ [] }

delivery_worker-drains_example :
    (delivery_worker 2 queue 5 (λ d. accepted)).subscription_deliveries ≡ []
unfolding every
delivery_worker-drains_example = delivery_worker-drains 2 5 queue refl refl (omega arith)

abbrev wish : SubscribePayload
wish = record {
  room_id = "lobby";
  webhook_url = "https://example.org";
  secret = "s";
  kinds = [];
  only_from = none;
  not_from = none;
  exclude_thinking = false;
  since_seq = none;
}

subscribe-unsubscribe_example :
    (handle_unsubscribe
      (handle_subscribe world (from "k1") (λ url. true) (λ m. m.message_id) (some wish)).0
      (from "k1")
      (some "f1")).1
    ≡ (if same "k1" "k1" then ok_frame none deleted_body else error_frame none access_denied)
unfolding handle_subscribe dec_eq clawdchat.Handler.authorize_room clawdchat.Handler.find_room
    clawdchat.Map.get empty clawdchat.Store.Rooms.get_room insert
    clawdchat.Store.Deliveries.create_subscription clawdchat.Map.contains_key
    clawdchat.Store.Messages.room_tip
subscribe-unsubscribe_example =
    subscribe-unsubscribe world (from "k1") (λ url. true) (λ m. m.message_id) wish hook refl

abbrev asked : GetHistoryPayload
asked = record { room_id = "study"; limit = 50; before = none; since = none; since_seq = none }

private-refused_example :
    (handle_room_tip world (from "k2") (some "study") ≡ error_frame none access_denied)
    × (handle_get_history world (from "k2") (some asked) ≡ error_frame none access_denied)
    × (handle_room_info world (from "k2") (some "study") ≡ error_frame none access_denied)
    × (handle_list_agents world (from "k2") (some "study") ≡ error_frame none access_denied)
    × (handle_list_votes world (from "k2") (some ("study", 20)) ≡ error_frame none access_denied)
    × (handle_list_tasks world (from "k2") (some ("study", none)) ≡ error_frame none access_denied)
    × (handle_join_room world (from "k2") (some "study") ≡ (world, error_frame none access_denied))
    × (handle_subscribe world
          (from "k2")
          (λ url. true)
          (λ m. m.message_id)
          (some (record wish { room_id = "study" }))
        ≡ (world, error_frame none access_denied))
unfolding clawdchat.Handler.find_room clawdchat.Map.get empty clawdchat.Store.Rooms.get_room insert
    dec_eq
private-refused_example =
    private-refused world (from "k2") "study" "k1" (room_named "study" "private" (some "k1")) none
      20 asked (record wish { room_id = "study" }) (λ url. true) (λ m. m.message_id) refl refl refl
      refl (differ "k1" "k2" refl) refl refl refl refl

list_rooms-readable_example :
    every (may_read "k2" false) (rooms_in (handle_list_rooms world (from "k2") none).payload) ≡ true
list_rooms-readable_example = list_rooms-readable world (from "k2") none
