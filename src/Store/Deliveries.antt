-- ===== src/Store/Deliveries.antt =====
-- Webhook subscriptions and the queue of their deliveries.
use clawdchat.Base.{
  ℕ, String, Bool, true, false, ◌&&◌, ◌||◌, not, Option, none, some, List, [], ◌∷◌, ◌++◌, any, same,
  other, ltb, eqb, keep, map, if◌then◌else◌,
}
use clawdchat.Map.{get, insert, remove, update, contains_key, values}
use clawdchat.Core.Models.{Subscription}
use clawdchat.Store.Schema.{Store, Result, ok, err, db_error, query, SubscriptionRow, DeliveryRow}

unfoldable pub get_subscription : Store → String → Result (Option SubscriptionRow)
get_subscription s id = query s (get s.subscriptions id)

unfoldable pub list_active_subscriptions_for_room : Store → String → Result (List SubscriptionRow)
list_active_subscriptions_for_room s room_id = query s (
    keep (λ (row : SubscriptionRow). same row.sub.room_id room_id && same row.sub.status "active")
      (values s.subscriptions))

unfoldable pub create_subscription :
    Store
    → ℕ
    → String
    → String
    → String
    → String
    → String
    → List String
    → Option String
    → Option String
    → Bool
    → ℕ
    → Store × Result Subscription
create_subscription s now id room_id owner_key url secret kinds only_from not_from exclude_thinking
      since_seq =
    let sub : Subscription = record {
      subscription_id = id;
      room_id = room_id;
      webhook_url = url;
      kinds = kinds;
      only_from = only_from;
      not_from = not_from;
      exclude_thinking = exclude_thinking;
      since_seq = since_seq;
      last_delivered_seq = since_seq;
      status = "active";
      failure_count = 0;
      created_at = now;
    } in
    if not s.available || contains_key s.subscriptions id then (s, err db_error) else (
      record s {
        subscriptions =
            insert s.subscriptions id
              (record { sub = sub; owner_key = owner_key; secret = secret });
      },
      ok sub,
    )

-- `ON DELETE CASCADE`: the deliveries of a subscription go with it.
unfoldable pub delete_subscription : Store → String → String → Store × Result Bool
delete_subscription s id owner_key =
    if not s.available then (s, err db_error) else elim (get s.subscriptions id) [
      | none ↦ (s, ok false)
      | some row ↦
          if same row.owner_key owner_key
          then (
            record s {
              subscriptions = remove s.subscriptions id;
              subscription_deliveries =
                  keep (λ (d : DeliveryRow). other d.subscription_id id) s.subscription_deliveries;
            },
            ok true,
          )
          else (s, ok false)
    ]

abbrev pub with_status : String → Option ℕ → SubscriptionRow → SubscriptionRow
with_status status none row = record row { sub = record row.sub { status = status } }
with_status status (some n) row = record row {
  sub = record row.sub { status = status; failure_count = n };
}

unfoldable pub set_subscription_status : Store → String → String → Option ℕ → Store
set_subscription_status s id status failure_count =
    if s.available
    then record s { subscriptions = update s.subscriptions id (with_status status failure_count) }
    else s

-- The cursor only moves forward.
abbrev pub advanced : ℕ → SubscriptionRow → SubscriptionRow
advanced seq row =
    if ltb row.sub.last_delivered_seq seq
    then record row { sub = record row.sub { last_delivered_seq = seq; failure_count = 0 } }
    else row

unfoldable pub advance_subscription_cursor : Store → String → ℕ → Store
advance_subscription_cursor s id seq =
    if s.available then record s { subscriptions = update s.subscriptions id (advanced seq) } else s

abbrev pub is_queued : List DeliveryRow → String → ℕ → Bool
is_queued rows subscription_id seq =
    any (λ (d : DeliveryRow). same d.subscription_id subscription_id && eqb d.message_seq seq) rows

-- `ok false` where a constraint refuses the row: the delivery's id, the pair of subscription and
-- sequence number, or a subscription that is gone.
unfoldable pub enqueue_delivery : Store → String → String → ℕ → String → ℕ → Store × Result Bool
enqueue_delivery s id subscription_id seq message_id now =
    let row : DeliveryRow = record {
      delivery_id = id;
      subscription_id = subscription_id;
      message_seq = seq;
      message_id = message_id;
      next_attempt_at = now;
      attempts = 0;
      last_error = none;
    } in
    if not s.available
    then (s, err db_error)
    else if any (λ (d : DeliveryRow). same d.delivery_id id) s.subscription_deliveries
        || is_queued s.subscription_deliveries subscription_id seq
        || not (contains_key s.subscriptions subscription_id)
    then (s, ok false)
    else (record s { subscription_deliveries = s.subscription_deliveries ++ row ∷ [] }, ok true)

unfoldable pub delete_delivery : Store → String → Store
delete_delivery s id =
    if s.available
    then record s {
      subscription_deliveries =
          keep (λ (d : DeliveryRow). other d.delivery_id id) s.subscription_deliveries;
    }
    else s

unfoldable pub reschedule_delivery : Store → String → ℕ → ℕ → String → Store
reschedule_delivery s id next attempts error =
    if s.available
    then record s {
      subscription_deliveries =
          map
            (λ (d : DeliveryRow).
              if same d.delivery_id id
              then record d { next_attempt_at = next; attempts = attempts; last_error = some error }
              else d)
            s.subscription_deliveries;
    }
    else s
