-- ===== src/Tests/Limits.antt =====
-- Rate limits, stashes, the store and tasks.
use clawdchat.Base.{
  ℕ, ◌-◌, ◌<◌, ◌≡◌, refl, String, true, false, none, some, [], ◌∷◌, dec_eq, same, arith,
}
use clawdchat.Map.{get, empty, insert}
use clawdchat.Core.Json.{null}
use clawdchat.Core.Models.{ChatMessage, TaskInfo}
use clawdchat.RateLimit.{RateLimiter, new_limiter, new_usage, free}
use clawdchat.RateLimit.Signups.{min_left}
use clawdchat.RateLimit.Messages.{admitted, admitted_lem}
use clawdchat.Reconnect.{
  ReconnectManager, new_manager, stash, reclaim, reclaimed, is_stashed, max_buffered_messages,
}
use clawdchat.Reconnect.Laws.{stash_of, buffer_all, take, reclaim-stash}
use clawdchat.Store.Schema.{ok, no_rows}
use clawdchat.Store.Messages.{insert_message}
use clawdchat.Store.Identities.{claim_agent_identity}
use clawdchat.Store.Sequence.{
  NewMessage, insert_new, tip, outage, claims, run, insert_message-seq, seq-increases,
}
use clawdchat.Store.Ownership.{claim-claim}
use clawdchat.Tasks as T
use clawdchat.Tasks.Laws.{Call, creates, call, IsSynced, call-IsSynced}
use clawdchat.Tests.Fixtures.{houses, farewell}

abbrev used : RateLimiter
used = record new_limiter { usage = insert empty "k1" (new_usage 0) }

admitted_lem_example :
    (admitted used "k1" free (0 ∷ 1 ∷ [])).1 ≡ min_left 2 (free.max_messages_per_minute - 0)
unfolding free get insert empty dec_eq
admitted_lem_example =
    admitted_lem "k1" free (omega arith) used (new_usage 0) (0 ∷ 1 ∷ []) refl
      (omega arith, (omega arith, tt)) (omega arith)

reclaim-stash_example :
    let back =
      reclaim
        (buffer_all (stash new_manager 0 "ann" "Ann" "k1" ("lobby" ∷ [])) "ann" (farewell ∷ []))
        5
        "ann"
        "k1"
        false in
    (back.1
      ≡ reclaimed (
          some (
            stash_of 0 "ann" "Ann" "k1"
              ("lobby" ∷ [])
              (take max_buffered_messages (farewell ∷ [])))))
    × (is_stashed back.0 "ann" ≡ false)
reclaim-stash_example =
    reclaim-stash new_manager 0 5 "ann" "Ann" "k1" ("lobby" ∷ []) (farewell ∷ []) (omega arith)

abbrev stashed : ReconnectManager
stashed = stash new_manager 0 "ann" "Ann" "k1" ("lobby" ∷ [])

abbrev greeting : String → NewMessage
greeting id = record {
  now = 0;
  message_id = id;
  room_id = "lobby";
  agent_id = "ann";
  agent_name = "Ann";
  content = "hello";
  reply_to = none;
  metadata = null;
}

abbrev posted : String → ℕ → ChatMessage
posted id seq = record {
  message_id = id;
  room_id = "lobby";
  agent_id = "ann";
  agent_name = "Ann";
  content = "hello";
  reply_to_message = none;
  metadata = null;
  timestamp = 0;
  seq = seq;
}

seq-increases_example : (posted "m1" 1).seq < (posted "m2" 2).seq
unfolding insert_message clawdchat.Map.contains_key get insert empty dec_eq run
    clawdchat.Store.Sequence.call
seq-increases_example =
    seq-increases houses (greeting "m1") (greeting "m2") (outage false ∷ outage true ∷ [])
      (posted "m1" 1) (posted "m2" 2) refl refl refl

claim-claim_example :
    (claim_agent_identity
      (run (claim_agent_identity no_rows "ann" "k1").0 (claims "ann" "k2" ∷ []))
      "ann"
      "k2").1
    ≡ ok (same "k1" "k2")
unfolding claim_agent_identity get empty dec_eq run clawdchat.Store.Sequence.call insert
claim-claim_example = claim-claim no_rows "ann" "k1" "k2" (claims "ann" "k2" ∷ []) refl refl

abbrev chores : T.Tasks
chores = record { manager = record { tasks = empty }; store = houses }

chores-IsSynced : IsSynced chores
unfolding get empty
chores-IsSynced = record { same_rows = λ id. refl; keyed = λ id. tt }

abbrev sweeping : Call
sweeping = creates 0 "t1" "lobby" "sweep" none none "ann"

call-IsSynced_example : IsSynced (call chores sweeping)
unfolding get empty
call-IsSynced_example = call-IsSynced chores sweeping refl chores-IsSynced

abbrev swept : TaskInfo
swept = record {
  task_id = "t1";
  room_id = "lobby";
  title = "sweep";
  description = none;
  status = "pending";
  assignee = none;
  created_by = "ann";
  created_at = 0;
  updated_at = none;
  note = none;
}
