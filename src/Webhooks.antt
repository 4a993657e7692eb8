-- ===== src/Webhooks.antt =====
-- crates/clawchat-server/src/webhooks.rs: which messages a subscription is sent, the queue of their
-- deliveries, and what becomes of an attempt. The request over HTTP, its signature and the resolving
-- of its address are not modelled: an attempt is given by how it ends.
pub mod Laws
pub mod Worker
pub mod Draining
use clawdchat.Base.{
  ℕ, ◌+◌, ◌*◌, ◌-◌, String, ite, Bool, true, false, ◌&&◌, ◌||◌, not, Option, none, some, List, [],
  ◌∷◌, any, same, is_some_of, leb, get_elem?, if◌then◌else◌, dec_eq, length,
}
use clawdchat.Core.Json.{get_str}
use clawdchat.Core.Models.{ChatMessage, Subscription}
use clawdchat.Store.Schema.{Store, Result, ok, err, SubscriptionRow, DeliveryRow}
use clawdchat.Store.Messages.{get_message}
use clawdchat.Store.Deliveries.{
  get_subscription, list_active_subscriptions_for_room, enqueue_delivery, delete_delivery,
  advance_subscription_cursor, reschedule_delivery, set_subscription_status,
}

-- The delays after each failure, in seconds.
abbrev pub retry_schedule_secs : List ℕ
retry_schedule_secs = 1 ∷ 4 ∷ 16 ∷ 64 ∷ 256 ∷ []

abbrev pub is_only : Option String → String → Bool
is_only none name = true
is_only (some only) name = same name only

abbrev pub wants_kind : List String → Option String → Bool
wants_kind [] kind = true
wants_kind (k ∷ ks) kind = any (is_some_of kind) (k ∷ ks)

unfoldable pub matches_filter : Subscription → ChatMessage → Bool
matches_filter sub m =
    let meta_type = get_str m.metadata "type" in
    if leb m.seq sub.last_delivered_seq
    then false
    else if is_some_of meta_type "system"
    then false
    else if sub.exclude_thinking && is_some_of meta_type "thinking"
    then false
    else if not (wants_kind sub.kinds (get_str m.metadata "kind"))
    then false
    else if not (is_only sub.only_from m.agent_name)
    then false
    else not (is_some_of sub.not_from m.agent_name)

-- `delivery_id` gives each row a fresh id.
unfoldable enqueue_each : Store → ℕ → (String → String) → List SubscriptionRow → ChatMessage → Store
enqueue_each s now delivery_id [] m = s
enqueue_each s now delivery_id (row ∷ rows) m =
    let id = row.sub.subscription_id in
    let s' =
      if matches_filter row.sub m
      then (enqueue_delivery s (delivery_id id) id m.seq m.message_id now).0
      else s in
    enqueue_each s' now delivery_id rows m

unfoldable enqueue_to :
    Store → ℕ → (String → String) → ChatMessage → Result (List SubscriptionRow) → Store
unfolding enqueue_each
enqueue_to s now delivery_id m (err e) = s
enqueue_to s now delivery_id m (ok rows) = enqueue_each s now delivery_id rows m

-- The task that `enqueue_for_message` spawns.
unfoldable pub enqueue_for_message : Store → ℕ → (String → String) → ChatMessage → Store
unfolding enqueue_to
enqueue_for_message s now delivery_id m =
    enqueue_to s now delivery_id m (list_active_subscriptions_for_room s m.room_id)

-- How an attempt ends: its address is refused, the receiver accepts it, or it fails.
pub data Attempt : Type 0 where
  blocked accepted : Attempt
  failed : String → Attempt

unfoldable reschedule_or_fail : Store → ℕ → DeliveryRow → String → Option ℕ → Store
reschedule_or_fail s now d error none =
    set_subscription_status (delete_delivery s d.delivery_id) d.subscription_id "failed"
      (some (d.attempts + 1))
reschedule_or_fail s now d error (some secs) =
    reschedule_delivery s d.delivery_id (now + secs * 1000) (d.attempts + 1) error

-- A failure is tried again after the next delay of the schedule, and after the last the delivery is
-- given up and the subscription with it.
unfoldable pub retry_or_fail : Store → ℕ → DeliveryRow → String → Store
unfolding reschedule_or_fail
retry_or_fail s now d error =
    reschedule_or_fail s now d error (get_elem? retry_schedule_secs d.attempts)

unfoldable pub settle : Store → ℕ → DeliveryRow → Attempt → Store
settle s now d blocked =
    set_subscription_status s d.subscription_id "failed" (some (d.attempts + 1))
settle s now d accepted =
    advance_subscription_cursor (delete_delivery s d.delivery_id) d.subscription_id d.message_seq
settle s now d (failed error) = retry_or_fail s now d error

unfoldable attempt_message : Store → ℕ → DeliveryRow → Attempt → Result (Option ChatMessage) → Store
attempt_message s now d attempt (err e) = s
attempt_message s now d attempt (ok none) = delete_delivery s d.delivery_id
attempt_message s now d attempt (ok (some m)) = settle s now d attempt

unfoldable attempt_for : Store → ℕ → DeliveryRow → Attempt → Result (Option SubscriptionRow) → Store
unfolding attempt_message
attempt_for s now d attempt (err e) = s
attempt_for s now d attempt (ok none) = delete_delivery s d.delivery_id
attempt_for s now d attempt (ok (some row)) =
    if not (same row.sub.status "active")
    then delete_delivery s d.delivery_id
    else attempt_message s now d attempt (get_message s d.message_id)

unfoldable pub process_delivery : Store → ℕ → DeliveryRow → Attempt → Store
unfolding attempt_for
process_delivery s now d attempt =
    attempt_for s now d attempt (get_subscription s d.subscription_id)
