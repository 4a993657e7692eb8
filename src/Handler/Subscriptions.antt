-- ===== src/Handler/Subscriptions.antt =====
-- Webhook subscriptions, as agents ask for them. `valid_url` tells whether the webhook manager
-- accepts an address, which it resolves over the network; `delivery_id` gives the row of a message a
-- fresh id. A negative `since_seq` selects what 0 selects, and is not modelled.
use clawdchat.Base.{
  ℕ, zero, suc, String, Bool, true, false, not, Option, none, some, List, [], ◌∷◌, length, same,
  ltb, or_else, ◌||◌, if◌then◌else◌,
}
use clawdchat.Base.Ascending.{last_key}
use clawdchat.Map.{values}
use clawdchat.Core.Errors.{invalid_payload, internal_error, access_denied}
use clawdchat.Core.Commands.{SubscribePayload}
use clawdchat.Core.Models.{ChatMessage, Subscription}
use clawdchat.Core.Protocol.{
  Frame, subscription_body, subscriptions_body, deleted_body, enabled_body, ok_frame, error_frame,
}
use clawdchat.Store.Schema.{Store, Result, ok, err, unwrap_or, SubscriptionRow}
use clawdchat.Store.Messages.{room_tip}
use clawdchat.Store.Histories.{get_history_filtered, seq_of}
use clawdchat.Store.Listings.{list_subscriptions}
use clawdchat.Store.Deliveries.{
  get_subscription, create_subscription, delete_subscription, set_subscription_status,
  enqueue_delivery,
}
use clawdchat.Webhooks.{matches_filter}
use clawdchat.Handler.{World, Request, is_empty_text, Access, granted, refused, authorize_room}

-- What the queue of a subscription's backlog takes: the clock, the fresh ids and the subscription.
pub record Backlog : Type 0 where
  pub now : ℕ
  pub delivery_id : ChatMessage → String
  pub sub : Subscription

-- The body of the loop over the messages of a page.
unfoldable pub queue_one : Store → Backlog → ChatMessage → Store
queue_one s q m =
    if matches_filter q.sub m
    then (enqueue_delivery s (q.delivery_id m) q.sub.subscription_id m.seq m.message_id q.now).0
    else s

unfoldable pub enqueue_backlog : Store → Backlog → List ChatMessage → Store
unfolding queue_one
enqueue_backlog s q [] = s
enqueue_backlog s q (m ∷ ms) = enqueue_backlog (queue_one s q m) q ms

-- A page, and then what `more` does with the store and the number of its last message, unless the
-- page is not a full one.
unfoldable pub backfill_page :
    ℕ → (Store → ℕ → Store) → Store → Backlog → ℕ → Result (List ChatMessage) → Store
unfolding enqueue_backlog
backfill_page limit more s q cursor (err e) = s
backfill_page limit more s q cursor (ok []) = s
backfill_page limit more s q cursor (ok (m ∷ ms)) =
    let s' = enqueue_backlog s q (m ∷ ms) in
    let rest = more s' (last_key seq_of cursor (m ∷ ms)) in
    if ltb (length (m ∷ ms)) limit then s' else rest

-- The loop over the pages, on fuel.
unfoldable pub backfill : ℕ → ℕ → Store → Backlog → ℕ → Store
unfolding backfill_page
backfill limit zero s q cursor = s
backfill limit (suc fuel) s q cursor =
    backfill_page limit (λ s' seq. backfill limit fuel s' q seq) s q cursor
      (get_history_filtered s q.sub.room_id limit none none (some cursor))

-- One round for each stored message is enough.
unfoldable pub backfill_fuel : Store → ℕ
backfill_fuel s = suc (length (values s.messages))

abbrev pub page_size : ℕ
page_size = 1000

unfoldable pub report_subscribed :
    World → Request → (ChatMessage → String) → Store × Result Subscription → World × Frame
unfolding backfill backfill_fuel
report_subscribed w r delivery_id (s, err e) =
    (record w { store = s }, error_frame r.req_id internal_error)
report_subscribed w r delivery_id (s, ok sub) =
    let q : Backlog = record { now = r.now; delivery_id = delivery_id; sub = sub } in
    (
      record w { store = backfill page_size (backfill_fuel s) s q sub.since_seq },
      ok_frame r.req_id (subscription_body sub),
    )

unfoldable pub subscribe_to :
    World → Request → (ChatMessage → String) → SubscribePayload → World × Frame
unfolding report_subscribed
subscribe_to w r delivery_id p =
    let since_seq = or_else p.since_seq (unwrap_or (room_tip w.store p.room_id) 0) in
    let owner_key = if r.no_auth then "no-auth" else r.api_key in
    report_subscribed w r delivery_id (
      create_subscription w.store r.now r.fresh p.room_id owner_key p.webhook_url p.secret p.kinds
        p.only_from p.not_from p.exclude_thinking since_seq)

-- `is_invalid` tells whether the address or the secret was refused.
unfoldable pub subscribe_checked :
    World → Request → (ChatMessage → String) → SubscribePayload → Bool → Access → World × Frame
unfolding subscribe_to
subscribe_checked w r delivery_id p true a = (w, error_frame r.req_id invalid_payload)
subscribe_checked w r delivery_id p false (refused f) = (w, f)
subscribe_checked w r delivery_id p false (granted room) = subscribe_to w r delivery_id p

unfoldable pub handle_subscribe :
    World
    → Request
    → (String → Bool)
    → (ChatMessage → String)
    → Option SubscribePayload
    → World × Frame
unfolding subscribe_checked
handle_subscribe w r valid_url delivery_id none = (w, error_frame r.req_id invalid_payload)
handle_subscribe w r valid_url delivery_id (some p) =
    subscribe_checked w r delivery_id p (not (valid_url p.webhook_url) || is_empty_text p.secret)
      (authorize_room r.req_id p.room_id r.api_key r.no_auth w.store w.ephemeral_rooms)

unfoldable pub report_deleted : World → Request → Store × Result Bool → World × Frame
report_deleted w r (s, err e) = (record w { store = s }, error_frame r.req_id internal_error)
report_deleted w r (s, ok true) = (record w { store = s }, ok_frame r.req_id deleted_body)
report_deleted w r (s, ok false) = (record w { store = s }, error_frame r.req_id access_denied)

unfoldable pub handle_unsubscribe : World → Request → Option String → World × Frame
unfolding report_deleted
handle_unsubscribe w r none = (w, error_frame r.req_id invalid_payload)
handle_unsubscribe w r (some id) = report_deleted w r (delete_subscription w.store id r.api_key)

-- `none` is a payload that does not decode.
unfoldable pub handle_list_subscriptions : World → Request → Option (Option String) → Frame
handle_list_subscriptions w r none = error_frame r.req_id invalid_payload
handle_list_subscriptions w r (some room_id) = elim (list_subscriptions w.store r.api_key room_id) [
  | err e ↦ error_frame r.req_id internal_error
  | ok subs ↦ ok_frame r.req_id (subscriptions_body subs)
]

-- One page of the backlog.
unfoldable pub enqueue_page : Store → Backlog → Result (List ChatMessage) → Store
unfolding enqueue_backlog
enqueue_page s q (err e) = s
enqueue_page s q (ok ms) = enqueue_backlog s q ms

-- `set_subscription_status` fails where the database is down.
unfoldable pub enable_found :
    World → Request → (ChatMessage → String) → SubscriptionRow → World × Frame
unfolding enqueue_page
enable_found w r delivery_id row =
    let q : Backlog = record { now = r.now; delivery_id = delivery_id; sub = row.sub } in
    let s = set_subscription_status w.store row.sub.subscription_id "active" (some 0) in
    if not (same row.owner_key r.api_key)
    then (w, error_frame r.req_id access_denied)
    else if not w.store.available
    then (w, error_frame r.req_id internal_error)
    else (
      record w {
        store = enqueue_page s q (
            get_history_filtered s row.sub.room_id page_size none none
              (some row.sub.last_delivered_seq));
      },
      ok_frame r.req_id (enabled_body row.sub.subscription_id),
    )

unfoldable pub enable_looked_up :
    World → Request → (ChatMessage → String) → Result (Option SubscriptionRow) → World × Frame
unfolding enable_found
enable_looked_up w r delivery_id (err e) = (w, error_frame r.req_id internal_error)
enable_looked_up w r delivery_id (ok none) = (w, error_frame r.req_id access_denied)
enable_looked_up w r delivery_id (ok (some row)) = enable_found w r delivery_id row

unfoldable pub handle_enable_subscription :
    World → Request → (ChatMessage → String) → Option String → World × Frame
unfolding enable_looked_up
handle_enable_subscription w r delivery_id none = (w, error_frame r.req_id invalid_payload)
handle_enable_subscription w r delivery_id (some id) =
    enable_looked_up w r delivery_id (get_subscription w.store id)
