-- ===== src/Webhooks/Draining.antt =====
-- Receivers that accept empty the queue.
use mathlib.Core.Path.{subst}
use clawdchat.Base.{
  ℕ, zero, suc, ◌<◌, ◌≤◌, String, ◌≡◌, refl, sym, ap, ◌∙◌, Bool, true, false, not, Option, none,
  some, List, [], ◌∷◌, any, length, keep, length-keep-le, same, other, arith, if◌then◌else◌,
}
use clawdchat.Base.Sorting.{every, every-keep, take, sort}
use clawdchat.Map.{get}
use clawdchat.Core.Models.{ChatMessage}
use clawdchat.Store.Schema.{Store, ok, DeliveryRow, SubscriptionRow, query}
use clawdchat.Store.Messages.{get_message}
use clawdchat.Store.Deliveries.{get_subscription, delete_delivery, advance_subscription_cursor}
use clawdchat.Store.Queue.{load_due_deliveries, is_ripe, by_attempt, is_due, due_some, due_queued}
use clawdchat.Webhooks.{Attempt, accepted, settle, attempt_message, attempt_for, process_delivery}
use clawdchat.Webhooks.Worker.{process_each, process_due, delivery_worker, batch_size}

abbrev without_row : String → List DeliveryRow → List DeliveryRow
without_row id rows = keep (λ (d : DeliveryRow). other d.delivery_id id) rows

-- The delivery is gone from the queue, and the database is up.
abbrev IsDone : Store → String → Store → Type 0
IsDone s id s' =
    (s'.subscription_deliveries ≡ without_row id s.subscription_deliveries) × (s'.available ≡ true)

delete-IsDone : (s : Store) (id : String) → s.available ≡ true → IsDone s id (delete_delivery s id)
unfolding delete_delivery
delete-IsDone s id up = (rw up refl, rw up refl)

settle-IsDone :
    (s : Store) (now : ℕ) (d : DeliveryRow)
    → s.available ≡ true
    → IsDone s d.delivery_id (settle s now d accepted)
unfolding settle advance_subscription_cursor delete_delivery
settle-IsDone s now d up = (rw up refl, rw up refl)

message-IsDone :
    (s : Store) (now : ℕ) (d : DeliveryRow) (o : Option ChatMessage)
    → s.available ≡ true
    → IsDone s d.delivery_id (attempt_message s now d accepted (ok o))
unfolding attempt_message
message-IsDone s now d none up = delete-IsDone s d.delivery_id up
message-IsDone s now d (some m) up = settle-IsDone s now d up

up_query {ℓ} : {A : Type ℓ} (s : Store) (a : A) → s.available ≡ true → query s a ≡ ok a
up_query s a up = rw up refl

dropped_or :
    (b : Bool) (s t : Store) (id : String)
    → s.available ≡ true
    → IsDone s id t
    → IsDone s id (if b then delete_delivery s id else t)
dropped_or true s t id up h = delete-IsDone s id up
dropped_or false s t id up h = h

found-IsDone :
    (s : Store) (now : ℕ) (d : DeliveryRow) (o : Option SubscriptionRow)
    → s.available ≡ true
    → IsDone s d.delivery_id (attempt_for s now d accepted (ok o))
unfolding attempt_for get_message
found-IsDone s now d none up = delete-IsDone s d.delivery_id up
found-IsDone s now d (some row) up =
    dropped_or (not (same row.sub.status "active")) s
      (attempt_message s now d accepted (get_message s d.message_id)) d.delivery_id up
      (subst (λ o. IsDone s d.delivery_id (attempt_message s now d accepted o))
        (sym (up_query s (get s.messages d.message_id) up))
        (message-IsDone s now d (get s.messages d.message_id) up))

process-IsDone :
    (s : Store) (now : ℕ) (d : DeliveryRow)
    → s.available ≡ true
    → IsDone s d.delivery_id (process_delivery s now d accepted)
unfolding process_delivery get_subscription
process-IsDone s now d up =
    subst (λ o. IsDone s d.delivery_id (attempt_for s now d accepted o))
      (sym (up_query s (get s.subscriptions d.subscription_id) up))
      (found-IsDone s now d (get s.subscriptions d.subscription_id) up)

abbrev accepting : DeliveryRow → Attempt
accepting d = accepted

-- The database is up, the time of all deliveries has come, and at most `n` wait.
abbrev IsLeft : ℕ → ℕ → Store → Type 0
IsLeft now n s =
    (s.available ≡ true)
    × (every (is_ripe now) s.subscription_deliveries ≡ true)
    × (length s.subscription_deliveries ≤ n)

process-IsLeft :
    (s : Store) (now n : ℕ) (d : DeliveryRow)
    → IsLeft now n s
    → IsLeft now n (process_delivery s now d accepted)
process-IsLeft s now n d (up, ripe, few) =
    let (rows, up') = process-IsDone s now d up in
    let p = λ (e : DeliveryRow). other e.delivery_id d.delivery_id in
    (
      up',
      ap (every (is_ripe now)) rows ∙ every-keep (is_ripe now) p s.subscription_deliveries ripe,
      omega (arith, ap length rows, length-keep-le p s.subscription_deliveries, few),
    )

each-IsLeft :
    (s : Store) (now n : ℕ) (ds : List DeliveryRow)
    → IsLeft now n s
    → IsLeft now n (process_each s now accepting ds)
unfolding process_each
each-IsLeft s now n [] h = h
each-IsLeft s now n (d ∷ ds) h =
    each-IsLeft (process_delivery s now d accepted) now n ds (process-IsLeft s now n d h)

without_row-lt :
    (id : String) (rows : List DeliveryRow)
    → any (λ (e : DeliveryRow). same e.delivery_id id) rows ≡ true
    → length (without_row id rows) < length rows
unfolding any keep
without_row-lt id [] h = ground (arith, h)
without_row-lt id (e ∷ es) h = ground (
  arith,
  h,
  without_row-lt id es,
  length-keep-le (λ (d : DeliveryRow). other d.delivery_id id) es,
)

-- A round with something due makes the queue shorter.
due-IsLeft :
    (s : Store) (now n : ℕ) (d : DeliveryRow) (ds : List DeliveryRow)
    → IsLeft now (suc n) s
    → any (λ (e : DeliveryRow). same e.delivery_id d.delivery_id) s.subscription_deliveries ≡ true
    → IsLeft now n (process_each s now accepting (d ∷ ds))
unfolding process_each
due-IsLeft s now n d ds (up, ripe, few) queued =
    let s' = process_delivery s now d accepted in
    let (up', ripe', few') = process-IsLeft s now (suc n) d (up, ripe, few) in
    each-IsLeft s' now n ds (
      up',
      ripe',
      omega (
        arith,
        ap length (process-IsDone s now d up).0,
        without_row-lt d.delivery_id s.subscription_deliveries queued,
        few,
      ),
    )

round-IsLeft :
    (s : Store) (now n : ℕ) (rows due : List DeliveryRow)
    → s.subscription_deliveries ≡ rows
    → load_due_deliveries s now batch_size ≡ ok due
    → IsLeft now (suc n) s
    → IsLeft now n (process_each s now accepting due)
unfolding any
round-IsLeft s now n [] due e h (up, ripe, few) =
    each-IsLeft s now n due (up, ripe, omega (arith, ap length e))
round-IsLeft s now n (d ∷ es) [] e h (up, ripe, few) =
    let some_due = due_some s now 31 d es [] e (rw e at ripe) h in ground (arith, some_due)
round-IsLeft s now n (d ∷ es) (x ∷ xs) e h left = due-IsLeft s now n x xs left (
    due_queued s now batch_size (x ∷ xs) (λ (y : DeliveryRow). same y.delivery_id x.delivery_id) h
      (ground arith))

abbrev due_page : Store → ℕ → List DeliveryRow
due_page s now =
    take batch_size
      (sort by_attempt (keep (is_due s.subscription_deliveries now) s.subscription_deliveries))

up_due :
    (s : Store) (now : ℕ)
    → s.available ≡ true
    → load_due_deliveries s now batch_size ≡ ok (due_page s now)
unfolding load_due_deliveries
up_due s now up = up_query s (due_page s now) up

worker-IsLeft :
    (n now : ℕ) (s : Store) → IsLeft now n s → IsLeft now 0 (delivery_worker n s now accepting)
unfolding delivery_worker process_due
worker-IsLeft zero now s h = h
worker-IsLeft (suc n) now s h =
    let due = due_page s now in
    worker-IsLeft n now (process_due s now accepting (load_due_deliveries s now batch_size)) (
      subst (λ o. IsLeft now n (process_due s now accepting o)) (sym (up_due s now h.0))
        (round-IsLeft s now n s.subscription_deliveries due refl (up_due s now h.0) h))

none_left : (rows : List DeliveryRow) → length rows ≤ 0 → rows ≡ []
none_left [] h = refl
none_left (d ∷ ds) h = ground (arith, h)

-- If the database is up, the time of every waiting delivery has come and the receivers accept, then
-- as many rounds of the worker as there are deliveries, or more, empty the queue.
pub delivery_worker-drains :
    (n now : ℕ) (s : Store)
    → s.available ≡ true
    → every (is_ripe now) s.subscription_deliveries ≡ true
    → length s.subscription_deliveries ≤ n
    → (delivery_worker n s now (λ d. accepted)).subscription_deliveries ≡ []
delivery_worker-drains n now s up ripe few =
    let left = worker-IsLeft n now s (up, ripe, few) in
    none_left (delivery_worker n s now accepting).subscription_deliveries left.2
