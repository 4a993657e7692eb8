-- ===== src/Tests/Waits.antt =====
-- Waiting for a message, and the requests of a client.
use clawdchat.Base.{
  ℕ, ◌≤◌, ◌≡◌, refl, String, Bool, true, false, not, Option, none, some, List, [], ◌∷◌, keep, any,
  is_some, dec_eq,
}
use clawdchat.Base.Sorting.{every, take, sort}
use clawdchat.Base.Ascending.{beyond}
use clawdchat.Map.{empty, insert}
use clawdchat.Core.Json.{null}
use clawdchat.Core.Models.{ChatMessage}
use clawdchat.Core.Protocol.{ok_frame, empty_body}
use clawdchat.Store.Histories.{room_messages, seq_of}
use clawdchat.Handler.{World}
use clawdchat.Handler.Listings.{handle_get_history}
use clawdchat.Client.{ClawChatClient, Outcome, done, is_awaited, wait_for_message}
use clawdchat.Client.Inbox.{Step, read_frame, request, gave_up, run, new_inbox}
use clawdchat.Client.Requests.{replies, sent, taken, read, run_lem}
use clawdchat.Client.Rising.{precedes}
use clawdchat.Client.Waiting.{page_request, got, wait_oldest, wait_found}
use clawdchat.Tests.Fixtures.{houses, room_named}
use clawdchat.Tests.Posts.{world, from}
use clawdchat.Tests.Ciphers.{toy}

abbrev said : String → ℕ → ChatMessage
said agent seq = record {
  message_id = agent;
  room_id = "lobby";
  agent_id = agent;
  agent_name = agent;
  content = "hello";
  reply_to_message = none;
  metadata = null;
  timestamp = 0;
  seq = seq;
}

-- Ann has said something, and then Bob.
abbrev talk : World
talk = record world {
  store = record houses {
    messages = insert (insert empty "ann" (said "ann" 1)) "bob" (said "bob" 2);
  };
}

abbrev ann : ClawChatClient
ann = record { agent_id = "ann"; agent_name = "ann"; stable_identity = true; room_secret = none }

wait_oldest_example :
    every
      (λ x. not (precedes seq_of (is_awaited ann) 2 x))
      (keep (beyond seq_of 0) (room_messages talk.store "lobby"))
    ≡ true
unfolding wait_for_message handle_get_history clawdchat.Handler.Reads.authorized
    clawdchat.Handler.authorize_room clawdchat.Handler.find_room clawdchat.Map.get empty
    clawdchat.Store.Rooms.get_room insert dec_eq clawdchat.Store.Histories.get_history_filtered sort
    keep room_messages clawdchat.Map.values clawdchat.Core.Json.get_str
    clawdchat.Client.is_self_message clawdchat.Client.decrypt_message
    clawdchat.Client.get_history_filtered clawdchat.Client.responded clawdchat.Base.Sorting.place
    clawdchat.Handler.Listings.history_reply clawdchat.Client.await_event
wait_oldest_example = wait_oldest toy ann talk (from "k1") "lobby" 0 (said "bob" 2) refl

wait_found_example :
    is_some (
      got (
        wait_for_message toy ann "lobby"
          (some (handle_get_history talk (from "k1") (some (page_request "lobby" 0))))
          []))
    ≡ true
unfolding clawdchat.Handler.find_room clawdchat.Map.get empty clawdchat.Store.Rooms.get_room insert
    dec_eq any sort keep room_messages clawdchat.Map.values clawdchat.Core.Json.get_str
    clawdchat.Client.is_self_message
wait_found_example =
    wait_found toy ann talk (from "k1") "lobby" 0 [] (room_named "lobby" "public" none) refl refl
      refl refl

-- A request that gets its reply, and a second reply that comes too late.
abbrev exchange : List Step
exchange =
    request "r1"
    ∷ read_frame none (ok_frame (some "r1") empty_body)
    ∷ read_frame none (ok_frame (some "r1") empty_body)
    ∷ gave_up "r1"
    ∷ []

run_lem_example :
    (replies (run new_inbox exchange) "r1" ≤ sent "r1" exchange)
    × (taken (run new_inbox exchange) ≡ read exchange)
run_lem_example = run_lem exchange "r1"
