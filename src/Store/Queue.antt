-- ===== src/Store/Queue.antt =====
-- The deliveries that are due, and when the next one will be.
use mathlib.Core.Path.{subst, ap}
use clawdchat.Base.{
  ℕ, suc, ◌≤◌, ◌≡◌, refl, sym, ◌∙◌, Bool, true, false, ◌&&◌, not, Option, none, some, List, [], ◌∷◌,
  any, same, ltb, leb, keep, arith, if◌then◌else◌,
}
use clawdchat.Base.Sorting.{take, sort, every, any-sort, any-take, any-keep}
use clawdchat.Store.Schema.{Store, Result, ok, query, query-ok, DeliveryRow}

-- Another delivery of the same subscription waits with a smaller sequence number.
abbrev pub is_blocked : List DeliveryRow → DeliveryRow → Bool
is_blocked rows d =
    any
      (λ (e : DeliveryRow).
        same e.subscription_id d.subscription_id && ltb e.message_seq d.message_seq)
      rows

abbrev pub is_due : List DeliveryRow → ℕ → DeliveryRow → Bool
is_due rows now d = leb d.next_attempt_at now && not (is_blocked rows d)

-- `next_attempt_at ASC, message_seq ASC`.
abbrev pub by_attempt : DeliveryRow → DeliveryRow → Bool
by_attempt a b =
    if leb a.next_attempt_at b.next_attempt_at
    then (if leb b.next_attempt_at a.next_attempt_at then leb a.message_seq b.message_seq else true)
    else false

unfoldable pub load_due_deliveries : Store → ℕ → ℕ → Result (List DeliveryRow)
load_due_deliveries s now limit =
    let rows = s.subscription_deliveries in
    query s (take limit (sort by_attempt (keep (is_due rows now) rows)))

first_attempt : List DeliveryRow → Option ℕ
first_attempt [] = none
first_attempt (d ∷ ds) = some d.next_attempt_at

unfoldable pub earliest_pending_attempt : Store → Result (Option ℕ)
unfolding first_attempt
earliest_pending_attempt s = query s (
    first_attempt (
      take 1 (
        sort (λ (a b : DeliveryRow). leb a.next_attempt_at b.next_attempt_at)
          s.subscription_deliveries)))

-- The row with the smallest sequence number.
least : DeliveryRow → List DeliveryRow → DeliveryRow
least d [] = d
least d (e ∷ es) = least (if ltb e.message_seq d.message_seq then e else d) es

-- No row of the list is numbered below `n`.
abbrev is_from : ℕ → DeliveryRow → Bool
is_from n d = leb n d.message_seq

least-le : (d : DeliveryRow) (es : List DeliveryRow) → (least d es).message_seq ≤ d.message_seq
unfolding least
least-le d [] = omega arith
least-le d (e ∷ es) = ground (arith, least-le (if ltb e.message_seq d.message_seq then e else d) es)

least-from :
    (d : DeliveryRow) (es : List DeliveryRow) → every (is_from (least d es).message_seq) es ≡ true
unfolding least every
least-from d [] = refl
least-from d (e ∷ es) =
    let d' = if ltb e.message_seq d.message_seq then e else d in
    ground (arith, least-from d' es, least-le d' es)

any-least :
    (p : DeliveryRow → Bool) (d : DeliveryRow) (es : List DeliveryRow)
    → p (least d es) ≡ true
    → any p (d ∷ es) ≡ true
unfolding least any
any-least p d [] h = ground (arith, h)
any-least p d (e ∷ es) h =
    ground (arith, h, any-least p (if ltb e.message_seq d.message_seq then e else d) es)

from_unblocked :
    (d : DeliveryRow) (rows : List DeliveryRow)
    → every (is_from d.message_seq) rows ≡ true
    → is_blocked rows d ≡ false
unfolding every any
from_unblocked d [] h = refl
from_unblocked d (e ∷ es) h = ground (arith, h, from_unblocked d es)

-- Some row of a queue that is not empty is not blocked.
some_unblocked :
    (d : DeliveryRow) (es : List DeliveryRow)
    → any (λ e. not (is_blocked (d ∷ es) e)) (d ∷ es) ≡ true
unfolding every
some_unblocked d es =
    any-least (λ e. not (is_blocked (d ∷ es) e)) d es
      (ap not
        (from_unblocked (least d es) (d ∷ es) (ground (arith, least-from d es, least-le d es))))

-- Every row's time has come.
abbrev pub is_ripe : ℕ → DeliveryRow → Bool
is_ripe now d = leb d.next_attempt_at now

ripe_due :
    (rows es : List DeliveryRow) (now : ℕ)
    → every (is_ripe now) es ≡ true
    → any (λ e. not (is_blocked rows e)) es ≡ true
    → any (λ e. true) (keep (is_due rows now) es) ≡ true
unfolding every any keep
ripe_due rows [] now h u = u
ripe_due rows (e ∷ es) now h u = ground (arith, h, u, ripe_due rows es now)

any-take_some :
    (n : ℕ) (xs : List DeliveryRow)
    → any (λ e. true) xs ≡ true
    → any (λ e. true) (take (suc n) xs) ≡ true
unfolding any
any-take_some n [] h = h
any-take_some n (x ∷ xs) h = refl

-- What is due is in the queue.
pub due_queued :
    (s : Store) (now n : ℕ) (ds : List DeliveryRow) (p : DeliveryRow → Bool)
    → load_due_deliveries s now n ≡ ok ds
    → any p ds ≡ true
    → any p s.subscription_deliveries ≡ true
unfolding load_due_deliveries
due_queued s now n ds p h found =
    let rows = s.subscription_deliveries in
    let due = keep (is_due rows now) rows in
    any-keep p (is_due rows now) rows (
      sym (any-sort p by_attempt due)
      ∙ any-take p n (sort by_attempt due)
          (ap (any p) (query-ok s (take n (sort by_attempt due)) ds h) ∙ found))

-- If the queue is not empty and the time of all its rows has come, then some delivery is due.
pub due_some :
    (s : Store) (now n : ℕ) (d : DeliveryRow) (es ds : List DeliveryRow)
    → s.subscription_deliveries ≡ d ∷ es
    → every (is_ripe now) (d ∷ es) ≡ true
    → load_due_deliveries s now (suc n) ≡ ok ds
    → any (λ e. true) ds ≡ true
unfolding load_due_deliveries
due_some s now n d es ds rows ripe h =
    let due = keep (is_due (d ∷ es) now) (d ∷ es) in
    subst (λ xs. any (λ e. true) xs ≡ true)
      (query-ok s (take (suc n) (sort by_attempt due)) ds (rw rows at h))
      (any-take_some n (sort by_attempt due) (
        any-sort (λ e. true) by_attempt due
        ∙ ripe_due (d ∷ es) (d ∷ es) now ripe (some_unblocked d es)))
