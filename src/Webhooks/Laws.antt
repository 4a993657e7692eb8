-- ===== src/Webhooks/Laws.antt =====
-- Cursors of subscriptions, and how often a delivery is tried.
use clawdchat.Base.{
  ℕ, zero, suc, ◌+◌, ◌*◌, ◌^◌, ◌++◌, any, eqb, ◌≤◌, String, ◌≡◌, ◌∙◌, refl, Bool, true, false, ◌&&◌,
  Option, none, some, List, [], ◌∷◌, arith, ltb, same, get_elem?, if◌then◌else◌,
}
use clawdchat.Map.{get, get-update}
use clawdchat.Core.Models.{ChatMessage}
use clawdchat.Store.Schema.{Store, Result, ok, err, SubscriptionRow, DeliveryRow}
use clawdchat.Store.Messages.{get_message}
use clawdchat.Store.Deliveries.{
  get_subscription, delete_delivery, enqueue_delivery, is_queued,
  list_active_subscriptions_for_room, advanced, with_status, advance_subscription_cursor,
  reschedule_delivery, set_subscription_status,
}
use clawdchat.Webhooks.{
  matches_filter, Attempt, blocked, accepted, failed, retry_or_fail, settle, attempt_message,
  attempt_for, process_delivery, enqueue_each, enqueue_to, reschedule_or_fail, enqueue_for_message,
  retry_schedule_secs,
}

abbrev pub cursor_of : Option SubscriptionRow → ℕ
cursor_of none = 0
cursor_of (some row) = row.sub.last_delivered_seq

-- How far a subscription has been delivered.
abbrev pub cursor : Store → String → ℕ
cursor s id = cursor_of (get s.subscriptions id)

cursor-status :
    (s : Store) (x status : String) (n : Option ℕ) (id : String)
    → cursor (set_subscription_status s x status n) id ≡ cursor s id
unfolding set_subscription_status
cursor-status s x status none id =
    ground (arith, get-update s.subscriptions x (with_status status none) id)
cursor-status s x status (some n) id =
    ground (arith, get-update s.subscriptions x (with_status status (some n)) id)

cursor-advance :
    (s : Store) (x : String) (seq : ℕ) (id : String)
    → cursor s id ≤ cursor (advance_subscription_cursor s x seq) id
unfolding advance_subscription_cursor
cursor-advance s x seq id = ground (arith, get-update s.subscriptions x (advanced seq) id)

cursor-delete : (s : Store) (d id : String) → cursor (delete_delivery s d) id ≡ cursor s id
unfolding delete_delivery
cursor-delete s d id = ground arith

cursor-reschedule :
    (s : Store) (d : String) (next n : ℕ) (error id : String)
    → cursor (reschedule_delivery s d next n error) id ≡ cursor s id
unfolding reschedule_delivery
cursor-reschedule s d next n error id = ground arith

cursor-reschedule_or_fail :
    (s : Store) (now : ℕ) (d : DeliveryRow) (error : String) (o : Option ℕ) (id : String)
    → cursor (reschedule_or_fail s now d error o) id ≡ cursor s id
unfolding reschedule_or_fail
cursor-reschedule_or_fail s now d error none id =
    cursor-status (delete_delivery s d.delivery_id) d.subscription_id "failed"
      (some (d.attempts + 1)) id
    ∙ cursor-delete s d.delivery_id id
cursor-reschedule_or_fail s now d error (some secs) id =
    cursor-reschedule s d.delivery_id (now + secs * 1000) (d.attempts + 1) error id

cursor-retry :
    (s : Store) (now : ℕ) (d : DeliveryRow) (error id : String)
    → cursor (retry_or_fail s now d error) id ≡ cursor s id
unfolding retry_or_fail
cursor-retry s now d error id =
    cursor-reschedule_or_fail s now d error (get_elem? retry_schedule_secs d.attempts) id

cursor-settle :
    (s : Store) (now : ℕ) (d : DeliveryRow) (attempt : Attempt) (id : String)
    → cursor s id ≤ cursor (settle s now d attempt) id
unfolding settle
cursor-settle s now d blocked id =
    omega (arith, cursor-status s d.subscription_id "failed" (some (d.attempts + 1)) id)
cursor-settle s now d accepted id = omega (
  arith,
  cursor-advance (delete_delivery s d.delivery_id) d.subscription_id d.message_seq id,
  cursor-delete s d.delivery_id id,
)
cursor-settle s now d (failed error) id = omega (arith, cursor-retry s now d error id)

cursor-attempt_message :
    (s : Store) (now : ℕ) (d : DeliveryRow) (attempt : Attempt) (o : Result (Option ChatMessage))
    (id : String)
    → cursor s id ≤ cursor (attempt_message s now d attempt o) id
unfolding attempt_message
cursor-attempt_message s now d attempt (err e) id = omega arith
cursor-attempt_message s now d attempt (ok none) id =
    omega (arith, cursor-delete s d.delivery_id id)
cursor-attempt_message s now d attempt (ok (some m)) id = cursor-settle s now d attempt id

cursor-attempt_for :
    (s : Store) (now : ℕ) (d : DeliveryRow) (attempt : Attempt)
    (o : Result (Option SubscriptionRow)) (id : String)
    → cursor s id ≤ cursor (attempt_for s now d attempt o) id
unfolding attempt_for
cursor-attempt_for s now d attempt (err e) id = omega arith
cursor-attempt_for s now d attempt (ok none) id = omega (arith, cursor-delete s d.delivery_id id)
cursor-attempt_for s now d attempt (ok (some row)) id = ground (
  arith,
  cursor-delete s d.delivery_id id,
  cursor-attempt_message s now d attempt (get_message s d.message_id) id,
)

-- Whatever comes of an attempt, no subscription's cursor moves back.
pub cursor-process_delivery :
    (s : Store) (now : ℕ) (d : DeliveryRow) (attempt : Attempt) (id : String)
    → cursor s id ≤ cursor (process_delivery s now d attempt) id
unfolding process_delivery
cursor-process_delivery s now d attempt id =
    cursor-attempt_for s now d attempt (get_subscription s d.subscription_id) id

delays : (n : ℕ) → get_elem? retry_schedule_secs n ≡ (if ltb n 5 then some (4 ^ n) else none)
delays zero = refl
delays (suc zero) = refl
delays (suc (suc zero)) = refl
delays (suc (suc (suc zero))) = refl
delays (suc (suc (suc (suc zero)))) = refl
delays (suc (suc (suc (suc (suc n))))) = ground arith

-- A failure with fewer than five before it is tried again after four to the power of their number
-- of seconds; the next one removes the delivery and marks its subscription as failed.
pub backoff :
    (s : Store) (now : ℕ) (d : DeliveryRow) (error : String)
    → retry_or_fail s now d error ≡ (
        if ltb d.attempts 5
        then reschedule_delivery s d.delivery_id
            (now + 4 ^ d.attempts * 1000)
            (d.attempts + 1)
            error
        else set_subscription_status
            (delete_delivery s d.delivery_id)
            d.subscription_id
            "failed"
            (some (d.attempts + 1)))
unfolding retry_or_fail reschedule_or_fail
backoff s now d error = rw (delays d.attempts) (ground arith)

-- The rows that are queued for a message of a subscription.
unfoldable pub queued : List DeliveryRow → String → ℕ → ℕ
queued [] id seq = 0
queued (d ∷ ds) id seq =
    let rest = queued ds id seq in
    if same d.subscription_id id && eqb d.message_seq seq then rest + 1 else rest

queued-append :
    (ds : List DeliveryRow) (d : DeliveryRow) (id : String) (seq : ℕ)
    → queued (ds ++ d ∷ []) id seq
      ≡ queued ds id seq + (if same d.subscription_id id && eqb d.message_seq seq then 1 else 0)
unfolding queued
queued-append [] d id seq = ground arith
queued-append (x ∷ ds) d id seq = ground (arith, queued-append ds d id seq)

queued-not :
    (ds : List DeliveryRow) (id : String) (seq : ℕ)
    → is_queued ds id seq ≡ false
    → queued ds id seq ≡ 0
unfolding queued any
queued-not [] id seq h = refl
queued-not (x ∷ ds) id seq h = ground (arith, h, queued-not ds id seq)

-- No message is queued twice for a subscription.
abbrev pub IsQueuedOnce : Store → Type 0
IsQueuedOnce s = (id : String) (seq : ℕ) → queued s.subscription_deliveries id seq ≤ 1

enqueue-IsQueuedOnce :
    (s : Store) (d sub : String) (seq : ℕ) (message : String) (now : ℕ)
    → IsQueuedOnce s
    → IsQueuedOnce (enqueue_delivery s d sub seq message now).0
unfolding enqueue_delivery
enqueue-IsQueuedOnce s d sub seq message now h id n =
    let row : DeliveryRow = record {
      delivery_id = d;
      subscription_id = sub;
      message_seq = seq;
      message_id = message;
      next_attempt_at = now;
      attempts = 0;
      last_error = none;
    } in
    ground (
      arith,
      h id n,
      queued-append s.subscription_deliveries row id n,
      queued-not s.subscription_deliveries sub seq,
    )

either-IsQueuedOnce :
    (c : Bool) (s s' : Store)
    → IsQueuedOnce s
    → IsQueuedOnce s'
    → IsQueuedOnce (if c then s else s')
either-IsQueuedOnce true s s' h h' = h
either-IsQueuedOnce false s s' h h' = h'

enqueue_each-IsQueuedOnce :
    (s : Store) (now : ℕ) (ids : String → String) (rows : List SubscriptionRow) (m : ChatMessage)
    → IsQueuedOnce s
    → IsQueuedOnce (enqueue_each s now ids rows m)
unfolding enqueue_each
enqueue_each-IsQueuedOnce s now ids [] m h = h
enqueue_each-IsQueuedOnce s now ids (row ∷ rows) m h =
    let id = row.sub.subscription_id in
    enqueue_each-IsQueuedOnce
      (if matches_filter row.sub m
        then (enqueue_delivery s (ids id) id m.seq m.message_id now).0
        else s)
      now ids rows m
      (either-IsQueuedOnce (matches_filter row.sub m)
        (enqueue_delivery s (ids id) id m.seq m.message_id now).0 s
        (enqueue-IsQueuedOnce s (ids id) id m.seq m.message_id now h) h)

enqueue_to-IsQueuedOnce :
    (s : Store) (now : ℕ) (ids : String → String) (m : ChatMessage)
    (o : Result (List SubscriptionRow))
    → IsQueuedOnce s
    → IsQueuedOnce (enqueue_to s now ids m o)
unfolding enqueue_to
enqueue_to-IsQueuedOnce s now ids m (err e) h = h
enqueue_to-IsQueuedOnce s now ids m (ok rows) h = enqueue_each-IsQueuedOnce s now ids rows m h

-- If no message is queued twice for a subscription, then none is after a message is handed to the
-- queue, be it for the first time or again.
pub enqueue_for_message-IsQueuedOnce :
    (s : Store) (now : ℕ) (ids : String → String) (m : ChatMessage)
    → IsQueuedOnce s
    → IsQueuedOnce (enqueue_for_message s now ids m)
unfolding enqueue_for_message
enqueue_for_message-IsQueuedOnce s now ids m h =
    enqueue_to-IsQueuedOnce s now ids m (list_active_subscriptions_for_room s m.room_id) h
