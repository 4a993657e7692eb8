-- ===== src/Handler/Backfill.antt =====
-- The loop that queues a new subscription's backlog page by page.
use clawdchat.Base.{
  ℕ, zero, suc, ◌<◌, ◌≤◌, String, ◌≡◌, refl, sym, ap, ◌∙◌, Bool, true, false, List, [], ◌∷◌, ◌++◌,
  none, some, length, length-append, length-keep-le, keep, ltb, arith, if◌then◌else◌,
}
use clawdchat.Base.Sorting.{take, drop, take-drop}
use clawdchat.Base.Ascending.{
  IsAscending, beyond, last_key, next_page, sort_ascending, IsAscending-keep,
}
use clawdchat.Map.{values}
use clawdchat.Core.Models.{ChatMessage}
use clawdchat.Store.Schema.{Store, ok}
use clawdchat.Store.Histories.{get_history_filtered, room_messages, seq_of, in_room}
use clawdchat.Store.Deliveries.{enqueue_delivery}
use clawdchat.Store.Numbering.{IsNumbered}
use clawdchat.Handler.Subscriptions.{
  Backlog, queue_one, enqueue_backlog, backfill_page, backfill, backfill_fuel,
}

-- Queueing changes neither the messages nor whether the database is up.
enqueue-messages :
    (s : Store) (id sub : String) (seq : ℕ) (m : String) (now : ℕ)
    → ((enqueue_delivery s id sub seq m now).0.messages ≡ s.messages)
      × ((enqueue_delivery s id sub seq m now).0.available ≡ s.available)
unfolding enqueue_delivery
enqueue-messages s id sub seq m now = (ground arith, ground arith)

queue_one-messages :
    (s : Store) (q : Backlog) (m : ChatMessage)
    → ((queue_one s q m).messages ≡ s.messages) × ((queue_one s q m).available ≡ s.available)
unfolding queue_one
queue_one-messages s q m =
    let (a, b) =
      enqueue-messages s (q.delivery_id m) q.sub.subscription_id m.seq m.message_id q.now in
    (ground (arith, a), ground (arith, b))

enqueue_backlog-messages :
    (s : Store) (q : Backlog) (ms : List ChatMessage)
    → ((enqueue_backlog s q ms).messages ≡ s.messages)
      × ((enqueue_backlog s q ms).available ≡ s.available)
unfolding enqueue_backlog
enqueue_backlog-messages s q [] = (refl, refl)
enqueue_backlog-messages s q (m ∷ ms) =
    let (a, b) = queue_one-messages s q m in
    let (c, d) = enqueue_backlog-messages (queue_one s q m) q ms in (c ∙ a, d ∙ b)

enqueue_backlog-append :
    (s : Store) (q : Backlog) (ms ns : List ChatMessage)
    → enqueue_backlog s q (ms ++ ns) ≡ enqueue_backlog (enqueue_backlog s q ms) q ns
unfolding enqueue_backlog
enqueue_backlog-append s q [] ns = refl
enqueue_backlog-append s q (m ∷ ms) ns = enqueue_backlog-append (queue_one s q m) q ms ns

room_messages-enqueue_backlog :
    (s : Store) (q : Backlog) (ms : List ChatMessage) (room_id : String)
    → room_messages (enqueue_backlog s q ms) room_id ≡ room_messages s room_id
unfolding room_messages
room_messages-enqueue_backlog s q ms room_id =
    ap (λ t. keep (in_room room_id) (values t)) (enqueue_backlog-messages s q ms).0

-- A page by number from a room whose messages ascend.
page-beyond :
    (s : Store) (room_id : String) (limit cursor : ℕ)
    → s.available ≡ true
    → IsAscending seq_of (room_messages s room_id)
    → get_history_filtered s room_id limit none none (some cursor)
      ≡ ok (take limit (keep (beyond seq_of cursor) (room_messages s room_id)))
unfolding get_history_filtered room_messages
page-beyond s room_id limit cursor up h = rw (up) (
    ap (λ ms. ok (take limit ms))
      (sort_ascending seq_of (keep (beyond seq_of cursor) (room_messages s room_id))
        (IsAscending-keep seq_of (beyond seq_of cursor) (room_messages s room_id) h)))

-- What is left after a page: nothing, after a page that is empty or not full.
module _ {ℓ} {A : Type ℓ} where
  drop_short : (n : ℕ) (xs : List A) → length (take n xs) < n → drop n xs ≡ []
  drop_short zero xs h = elim h [ ]
  drop_short (suc n) [] h = refl
  drop_short (suc n) (x ∷ xs) h = drop_short n xs (omega arith)

  length-drop :
      (n : ℕ) (xs : List A) (x : A) (ys : List A)
      → take n xs ≡ x ∷ ys
      → length (drop n xs) < length xs
  length-drop n xs x ys h =
      omega (arith, ap length (take-drop n xs), length-append (take n xs) (drop n xs), ap length h)

either :
    (b : Bool) (s s' t : Store)
    → (b ≡ true → s ≡ t)
    → (b ≡ false → s' ≡ t)
    → (if b then s else s') ≡ t
either true s s' t h h' = h refl
either false s s' t h h' = h' refl

-- A page and the rest of the loop, if the loop goes on as it should.
backfill_page-all :
    (limit : ℕ) (more : Store → ℕ → Store) (s : Store) (q : Backlog) (cursor : ℕ)
    (page left : List ChatMessage)
    → (page ≡ [] → left ≡ [])
    → (length page < limit → left ≡ [])
    → ((m : ChatMessage) (ms : List ChatMessage)
        → page ≡ m ∷ ms
        → more (enqueue_backlog s q page) (last_key seq_of cursor page)
          ≡ enqueue_backlog (enqueue_backlog s q page) q left)
    → backfill_page limit more s q cursor (ok page) ≡ enqueue_backlog s q (page ++ left)
unfolding backfill_page
backfill_page-all limit more s q cursor [] left none_left short goes = rw (none_left refl) refl
backfill_page-all limit more s q cursor (m ∷ ms) left none_left short goes =
    let page = m ∷ ms in
    let s' = enqueue_backlog s q page in
    let joined = enqueue_backlog-append s q page left in
    either (ltb (length page) limit) s' (more s' (last_key seq_of cursor page))
      (enqueue_backlog s q (page ++ left))
      (λ b. sym (joined ∙ ap (enqueue_backlog s' q) (short (ground arith))))
      (λ b. goes m ms refl ∙ sym joined)

backfill_all :
    (limit fuel : ℕ) (s : Store) (q : Backlog) (cursor : ℕ) (all : List ChatMessage)
    → s.available ≡ true
    → room_messages s q.sub.room_id ≡ all
    → IsAscending seq_of all
    → 0 < limit
    → length (keep (beyond seq_of cursor) all) < fuel
    → backfill limit fuel s q cursor ≡ enqueue_backlog s q (keep (beyond seq_of cursor) all)
unfolding backfill
backfill_all limit zero s q cursor all up e h pos enough = elim enough [ ]
backfill_all limit (suc fuel) s q cursor all up e h pos enough =
    let rest = keep (beyond seq_of cursor) all in
    let page = take limit rest in
    let left = drop limit rest in
    let s' = enqueue_backlog s q page in
    let (messages, available) = enqueue_backlog-messages s q page in
    ap (backfill_page limit (λ t seq. backfill limit fuel t q seq) s q cursor) (
      page-beyond s q.sub.room_id limit cursor up (rw e h)
      ∙ ap (λ ms. ok (take limit (keep (beyond seq_of cursor) ms))) e)
    ∙ backfill_page-all limit (λ t seq. backfill limit fuel t q seq) s q cursor page left
        (λ none_here. drop_short limit rest (rw none_here pos)) (drop_short limit rest)
        (λ m ms is_page.
          backfill_all limit fuel s' q (last_key seq_of cursor page) all (available ∙ up)
            (room_messages-enqueue_backlog s q page q.sub.room_id ∙ e) h pos
            (rw (next_page seq_of limit cursor all h)
              (omega (arith, enough, length-drop limit rest m ms is_page)))
          ∙ ap (enqueue_backlog s' q) (next_page seq_of limit cursor all h))
    ∙ ap (enqueue_backlog s q) (take-drop limit rest)

-- With pages that hold a message at least, and more rounds of fuel than there are messages, the loop
-- ends by itself and queues what one pass over all messages of the room beyond the cursor queues,
-- each once and in the order of their numbers, if the database is up and the messages of every room
-- stand in that order.
pub backfill_lem :
    (limit fuel : ℕ) (s : Store) (q : Backlog) (cursor : ℕ)
    → s.available ≡ true
    → IsNumbered s
    → 0 < limit
    → backfill_fuel s ≤ fuel
    → backfill limit fuel s q cursor
      ≡ enqueue_backlog s q (keep (beyond seq_of cursor) (room_messages s q.sub.room_id))
unfolding backfill_fuel room_messages
backfill_lem limit fuel s q cursor up h pos enough =
    let all = room_messages s q.sub.room_id in
    backfill_all limit fuel s q cursor all up refl (h q.sub.room_id).0 pos (
      omega (
        arith,
        enough,
        length-keep-le (beyond seq_of cursor) all,
        length-keep-le (in_room q.sub.room_id) (values s.messages),
      ))
