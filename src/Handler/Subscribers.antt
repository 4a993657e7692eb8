-- ===== src/Handler/Subscribers.antt =====
-- Who may give a subscription up.
use clawdchat.Base.{
  ℕ, zero, suc, String, ◌≡◌, refl, sym, ap, ◌∙◌, Bool, true, false, List, [], ◌∷◌, Option, none,
  some, not, ◌||◌, length, ltb, arith, same, dec_eq, ite, if◌then◌else◌, Bool-cases, inl, inr,
  or_else,
}
use clawdchat.Base.Ascending.{last_key}
use clawdchat.Map.{get, get-insert, contains_key, Map}
use clawdchat.Core.Models.{ChatMessage, Subscription, Room}
use clawdchat.Core.Errors.{access_denied}
use clawdchat.Core.Commands.{SubscribePayload}
use clawdchat.Core.Protocol.{
  Frame, FrameType, subscription_body, deleted_body, ok_frame, error_frame,
}
use clawdchat.Store.Schema.{Store, Result, ok, err, SubscriptionRow, unwrap_or}
use clawdchat.Store.Messages.{room_tip}
use clawdchat.Store.Histories.{get_history_filtered, seq_of}
use clawdchat.Store.Deliveries.{enqueue_delivery, create_subscription, delete_subscription}
use clawdchat.Handler.{World, Request, granted, refused, authorize_room, Access, is_empty_text}
use clawdchat.Handler.Subscriptions.{
  Backlog, queue_one, enqueue_backlog, backfill_page, backfill, backfill_fuel, page_size,
  report_subscribed, subscribe_to, subscribe_checked, handle_subscribe, report_deleted,
  handle_unsubscribe,
}

-- The database is up, and these are the subscriptions.
abbrev Holds : Map SubscriptionRow → Store → Type 0
Holds subs s = (s.subscriptions ≡ subs) × (s.available ≡ true)

enqueue-Holds :
    (s : Store) (id sub : String) (seq : ℕ) (m : String) (now : ℕ) (subs : Map SubscriptionRow)
    → Holds subs s
    → Holds subs (enqueue_delivery s id sub seq m now).0
unfolding enqueue_delivery
enqueue-Holds s id sub seq m now subs h = (ground (arith, h.0), ground (arith, h.1))

queue_one-Holds :
    (s : Store) (q : Backlog) (m : ChatMessage) (subs : Map SubscriptionRow)
    → Holds subs s
    → Holds subs (queue_one s q m)
unfolding queue_one
queue_one-Holds s q m subs h =
    let (a, b) =
      enqueue-Holds s (q.delivery_id m) q.sub.subscription_id m.seq m.message_id q.now subs h in
    (ground (arith, a, h.0), ground (arith, b, h.1))

enqueue_backlog-Holds :
    (s : Store) (q : Backlog) (ms : List ChatMessage) (subs : Map SubscriptionRow)
    → Holds subs s
    → Holds subs (enqueue_backlog s q ms)
unfolding enqueue_backlog
enqueue_backlog-Holds s q [] subs h = h
enqueue_backlog-Holds s q (m ∷ ms) subs h =
    enqueue_backlog-Holds (queue_one s q m) q ms subs (queue_one-Holds s q m subs h)

either-Holds :
    (b : Bool) (s s' : Store) (subs : Map SubscriptionRow)
    → Holds subs s
    → Holds subs s'
    → Holds subs (if b then s else s')
either-Holds true s s' subs h h' = h
either-Holds false s s' subs h h' = h'

backfill_page-Holds :
    (limit : ℕ) (more : Store → ℕ → Store) (s : Store) (q : Backlog) (cursor : ℕ)
    (page : Result (List ChatMessage)) (subs : Map SubscriptionRow)
    → ((t : Store) (seq : ℕ) → Holds subs t → Holds subs (more t seq))
    → Holds subs s
    → Holds subs (backfill_page limit more s q cursor page)
unfolding backfill_page
backfill_page-Holds limit more s q cursor (err e) subs keeps h = h
backfill_page-Holds limit more s q cursor (ok []) subs keeps h = h
backfill_page-Holds limit more s q cursor (ok (m ∷ ms)) subs keeps h =
    let s' = enqueue_backlog s q (m ∷ ms) in
    let seq = last_key seq_of cursor (m ∷ ms) in
    let queued = enqueue_backlog-Holds s q (m ∷ ms) subs h in
    either-Holds (ltb (length (m ∷ ms)) limit) s' (more s' seq) subs queued (keeps s' seq queued)

backfill-Holds :
    (limit fuel : ℕ) (s : Store) (q : Backlog) (cursor : ℕ) (subs : Map SubscriptionRow)
    → Holds subs s
    → Holds subs (backfill limit fuel s q cursor)
unfolding backfill
backfill-Holds limit zero s q cursor subs h = h
backfill-Holds limit (suc fuel) s q cursor subs h =
    backfill_page-Holds limit (λ t seq. backfill limit fuel t q seq) s q cursor
      (get_history_filtered s q.sub.room_id limit none none (some cursor)) subs
      (λ t seq. backfill-Holds limit fuel t q seq subs) h

-- In the mode without authentication all subscriptions have one owner.
abbrev pub owner_of : Request → String
owner_of r = if r.no_auth then "no-auth" else r.api_key

-- What a subscription that was made leaves in the store.
abbrev IsMade : Request → Store × Result Subscription → Type 0
IsMade r (s, err e) = Unit {0}
IsMade r (s, ok sub) =
    (secret : String) × (get s.subscriptions sub.subscription_id
      ≡ some (record { sub = sub; owner_key = owner_of r; secret = secret }))
    × (s.available ≡ true)

found {ℓ} : {A : Type ℓ} (k : String) (a b : A) → ite (dec_eq k k) a b ≡ a
found k a b = ground arith

made :
    (s : Store) (r : Request) (p : SubscribePayload) (since_seq : ℕ)
    → IsMade r (
        create_subscription s r.now r.fresh p.room_id
          (owner_of r)
          p.webhook_url
          p.secret
          p.kinds
          p.only_from
          p.not_from
          p.exclude_thinking
          since_seq)
unfolding create_subscription
made s r p since_seq = elim (Bool-cases (not s.available || contains_key s.subscriptions r.fresh)) [
  | inl e ↦ rw (e, create_subscription) tt
  | inr e ↦
      rw (e, create_subscription) (p.secret, rw (get-insert) (found r.fresh _ _), ground (arith, e))
]

delete_found :
    (s : Store) (id owner key : String) (row : SubscriptionRow)
    → get s.subscriptions id ≡ some row
    → s.available ≡ true
    → (delete_subscription s id key).1 ≡ ok (same row.owner_key key)
unfolding delete_subscription
delete_found s id owner key row h up = ground (arith, h, up)

given_up :
    (w : World) (r : Request) (id : String) (b : Bool) (x : Store × Result Bool)
    → x.1 ≡ ok b
    → (report_deleted w r x).1
      ≡ (if b then ok_frame r.req_id deleted_body else error_frame r.req_id access_denied)
unfolding report_deleted
given_up w r id b (s, err e) h = ground arith
given_up w r id true (s, ok true) h = refl
given_up w r id false (s, ok false) h = refl
given_up w r id true (s, ok false) h = ground arith
given_up w r id false (s, ok true) h = ground arith

report-unsubscribe :
    (w : World) (r : Request) (ids : ChatMessage → String) (x : Store × Result Subscription)
    (sub : Subscription)
    → IsMade r x
    → (report_subscribed w r ids x).1 ≡ ok_frame r.req_id (subscription_body sub)
    → (handle_unsubscribe (report_subscribed w r ids x).0 r (some sub.subscription_id)).1 ≡ (
        if same (owner_of r) r.api_key
        then ok_frame r.req_id deleted_body
        else error_frame r.req_id access_denied)
unfolding report_subscribed handle_unsubscribe
report-unsubscribe w r ids (s, err e) sub made h = ground (arith, ap Frame.frame_type h)
report-unsubscribe w r ids (s, ok sub') sub (secret, stored, up) h =
    let q : Backlog = record { now = r.now; delivery_id = ids; sub = sub' } in
    let s' = backfill page_size (backfill_fuel s) s q sub'.since_seq in
    let (subs, available) =
      backfill-Holds page_size (backfill_fuel s) s q sub'.since_seq s.subscriptions (refl, up) in
    let same_id : sub'.subscription_id ≡ sub.subscription_id = ground (arith, ap Frame.payload h) in
    given_up (record w { store = s' }) r sub.subscription_id (same (owner_of r) r.api_key)
      (delete_subscription s' sub.subscription_id r.api_key)
      (delete_found s' sub.subscription_id (owner_of r) r.api_key
        (record { sub = sub'; owner_key = owner_of r; secret = secret })
        (ap (λ m. get m sub.subscription_id) subs ∙ ap (get s.subscriptions) (sym same_id) ∙ stored)
        available)

refused_frame :
    (req_id : Option String) (room_id api_key : String) (no_auth : Bool) (s : Store)
    (rooms : Map Room) (f : Frame)
    → authorize_room req_id room_id api_key no_auth s rooms ≡ refused f
    → f.frame_type ≡ FrameType.error
unfolding authorize_room
refused_frame req_id room_id api_key no_auth s rooms f h = ground (arith, h)

checked-unsubscribe :
    (w : World) (r : Request) (ids : ChatMessage → String) (p : SubscribePayload) (b : Bool)
    (a : Access) (sub : Subscription)
    → ((f : Frame) → a ≡ refused f → f.frame_type ≡ FrameType.error)
    → (subscribe_checked w r ids p b a).1 ≡ ok_frame r.req_id (subscription_body sub)
    → (handle_unsubscribe (subscribe_checked w r ids p b a).0 r (some sub.subscription_id)).1 ≡ (
        if same (owner_of r) r.api_key
        then ok_frame r.req_id deleted_body
        else error_frame r.req_id access_denied)
unfolding subscribe_checked subscribe_to
checked-unsubscribe w r ids p true a sub bad h = ground (arith, ap Frame.frame_type h)
checked-unsubscribe w r ids p false (refused f) sub bad h =
    ground (arith, bad f refl, ap Frame.frame_type h)
checked-unsubscribe w r ids p false (granted room) sub bad h =
    let since_seq = or_else p.since_seq (unwrap_or (room_tip w.store p.room_id) 0) in
    report-unsubscribe w r ids
      (create_subscription w.store r.now r.fresh p.room_id (owner_of r) p.webhook_url p.secret
        p.kinds p.only_from p.not_from p.exclude_thinking since_seq)
      sub (made w.store r p since_seq) h

-- An agent that has subscribed may give the subscription up when the key that it sends is the one
-- that the subscription was filed under, and is refused otherwise. With authentication that is the
-- same key; without it every subscription is filed under `no-auth`.
pub subscribe-unsubscribe :
    (w : World) (r : Request) (valid_url : String → Bool) (ids : ChatMessage → String)
    (p : SubscribePayload) (sub : Subscription)
    → (handle_subscribe w r valid_url ids (some p)).1 ≡ ok_frame r.req_id (subscription_body sub)
    → (handle_unsubscribe
        (handle_subscribe w r valid_url ids (some p)).0
        r
        (some sub.subscription_id)).1
      ≡ (if same (if r.no_auth then "no-auth" else r.api_key) r.api_key
          then ok_frame r.req_id deleted_body
          else error_frame r.req_id access_denied)
unfolding handle_subscribe
subscribe-unsubscribe w r valid_url ids p sub h =
    checked-unsubscribe w r ids p (not (valid_url p.webhook_url) || is_empty_text p.secret)
      (authorize_room r.req_id p.room_id r.api_key r.no_auth w.store w.ephemeral_rooms) sub
      (refused_frame r.req_id p.room_id r.api_key r.no_auth w.store w.ephemeral_rooms) h
