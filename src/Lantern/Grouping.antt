-- ===== src/Lantern/Grouping.antt =====
-- What reconstruction makes of a history: which messages stand in which thread.
use clawdchat.Base.{
  ℕ, ◌<◌, ◌≤◌, ◌≡◌, refl, sym, ap, ◌∙◌, String, Option, none, some, List, [], ◌∷◌, ◌++◌, map, eqb,
  or_else, if◌then◌else◌, arith, Bool-cases, inl, inr,
}
use mathlib.Core.List.{append_assoc, append-nil}
use clawdchat.Base.Ascending.{IsAbove, IsAscending, IsAbove-trans}
use clawdchat.Core.Json.{Json}
use clawdchat.Core.Models.{ChatMessage}
use clawdchat.Lantern.{Parsed, hello, verb, parse}
use clawdchat.Lantern.Threads.{
  ThreadMessage, Thread, Threads, Collected, push, collect, collect_all, message_of, nothing,
  thread_of, reconstruct,
}

abbrev number : ℕ × List ThreadMessage → ℕ
number e = e.0

abbrev found : Threads → ℕ → Option (List ThreadMessage)
found [] id = none
found ((k, ms) ∷ rest) id = if eqb k id then some ms else found rest id

found-absent : (ts : Threads) (n id : ℕ) → IsAbove number n ts → id ≤ n → found ts id ≡ none
found-absent [] n id a h = refl
found-absent ((k, ms) ∷ rest) n id a h = ground (arith, a.0, found-absent rest n id a.1 h)

IsAbove-push :
    (ts : Threads) (n tid : ℕ) (m : ThreadMessage)
    → IsAbove number n ts
    → n < tid
    → IsAbove number n (push ts tid m)
unfolding push
IsAbove-push [] n tid m a h = (h, tt)
IsAbove-push ((k, ms) ∷ rest) n tid m a h =
    ground (arith, a.0, a.1, h, IsAbove-push rest n tid m a.1 h)

IsAscending-push :
    (ts : Threads) (tid : ℕ) (m : ThreadMessage)
    → IsAscending number ts
    → IsAscending number (push ts tid m)
unfolding push
IsAscending-push [] tid m a = (tt, tt)
IsAscending-push ((k, ms) ∷ rest) tid m a = ground (
  arith,
  a.0,
  a.1,
  IsAscending-push rest tid m a.1,
  IsAbove-push rest k tid m a.0,
  IsAbove-trans number k tid rest,
)

-- The list under `id` when `m` joins the thread `tid`.
found-push :
    (ts : Threads) (tid id : ℕ) (m : ThreadMessage)
    → IsAscending number ts
    → found (push ts tid m) id
      ≡ (if eqb tid id then some (or_else (found ts id) [] ++ m ∷ []) else found ts id)
unfolding push
found-push [] tid id m a = refl
found-push ((k, ms) ∷ rest) tid id m a =
    ground (arith, found-push rest tid id m a.1, found-absent rest k id a.0)

-- The thread that a message names, or the one that it opens.
abbrev place_of : ℕ → Option Parsed → Option (ℕ × ThreadMessage)
place_of seq none = none
place_of seq (some (hello h)) = none
place_of seq (some (verb e)) = some (
  or_else e.thread seq,
  record { seq = seq; from = e.from; verb = e.verb; body = e.body; intent = e.intent },
)

abbrev only : ℕ → Option (ℕ × ThreadMessage) → List ThreadMessage
only id none = []
only id (some (tid, m)) = if eqb tid id then m ∷ [] else []

-- The messages of the thread `id`, in the order of the history.
unfoldable pub belonging : (String → Option Json) → ℕ → List ChatMessage → List ThreadMessage
belonging from_str id [] = []
belonging from_str id (m ∷ ms) =
    only id (place_of m.seq (parse from_str m.content)) ++ belonging from_str id ms

abbrev joined : Option (List ThreadMessage) → List ThreadMessage → Option (List ThreadMessage)
joined o [] = o
joined o (m ∷ ms) = some (or_else o [] ++ m ∷ ms)

joined-append :
    (o : Option (List ThreadMessage)) (xs ys : List ThreadMessage)
    → joined (joined o xs) ys ≡ joined o (xs ++ ys)
joined-append o [] ys = refl
joined-append o (x ∷ xs) [] = ap (λ zs. some (or_else o [] ++ x ∷ zs)) (sym (append-nil xs))
joined-append o (x ∷ xs) (y ∷ ys) = ap some (append_assoc (or_else o []) (x ∷ xs) (y ∷ ys))

collect-IsAscending :
    (c : Collected) (seq : ℕ) (p : Option Parsed)
    → IsAscending number c.by_thread
    → IsAscending number (collect c seq p).by_thread
unfolding collect
collect-IsAscending c seq none a = a
collect-IsAscending c seq (some (hello h)) a = a
collect-IsAscending c seq (some (verb e)) a =
    IsAscending-push c.by_thread (or_else e.thread seq) (message_of seq e) a

found-collect :
    (c : Collected) (seq id : ℕ) (p : Option Parsed)
    → IsAscending number c.by_thread
    → found (collect c seq p).by_thread id
      ≡ joined (found c.by_thread id) (only id (place_of seq p))
unfolding collect
found-collect c seq id none a = refl
found-collect c seq id (some (hello h)) a = refl
found-collect c seq id (some (verb e)) a =
    ground (arith, found-push c.by_thread (or_else e.thread seq) id (message_of seq e) a)

collect_all-IsAscending :
    (from_str : String → Option Json) (c : Collected) (ms : List ChatMessage)
    → IsAscending number c.by_thread
    → IsAscending number (collect_all from_str c ms).by_thread
unfolding collect_all
collect_all-IsAscending from_str c [] a = a
collect_all-IsAscending from_str c (m ∷ ms) a =
    let p = parse from_str m.content in
    collect_all-IsAscending from_str (collect c m.seq p) ms (collect-IsAscending c m.seq p a)

found-collect_all :
    (from_str : String → Option Json) (c : Collected) (ms : List ChatMessage) (id : ℕ)
    → IsAscending number c.by_thread
    → found (collect_all from_str c ms).by_thread id
      ≡ joined (found c.by_thread id) (belonging from_str id ms)
unfolding collect_all belonging
found-collect_all from_str c [] id a = refl
found-collect_all from_str c (m ∷ ms) id a =
    let p = parse from_str m.content in
    found-collect_all from_str (collect c m.seq p) ms id (collect-IsAscending c m.seq p a)
    ∙ ap (λ o. joined o (belonging from_str id ms)) (found-collect c m.seq id p a)
    ∙ joined-append (found c.by_thread id) (only id (place_of m.seq p)) (belonging from_str id ms)

abbrev pub thread_id : Thread → ℕ
thread_id t = t.id

abbrev pub thread_numbered : List Thread → ℕ → Option Thread
thread_numbered [] id = none
thread_numbered (t ∷ ts) id = if eqb t.id id then some t else thread_numbered ts id

-- The thread that a list of messages makes, if there are any.
abbrev pub thread_among : ℕ → List ThreadMessage → Option Thread
thread_among id [] = none
thread_among id (m ∷ ms) = some (thread_of (id, m ∷ ms))

abbrev as_thread : ℕ → Option (List ThreadMessage) → Option Thread
as_thread id none = none
as_thread id (some ms) = some (thread_of (id, ms))

numbered-found :
    (ts : Threads) (id : ℕ) → thread_numbered (map thread_of ts) id ≡ as_thread id (found ts id)
unfolding thread_of
numbered-found [] id = refl
numbered-found ((k, ms) ∷ rest) id = elim (Bool-cases (eqb k id)) [
  | inl e ↦ rw e (ap (λ n. some (thread_of (n, ms))) (ground (arith, e)))
  | inr e ↦ rw e (numbered-found rest id)
]

as-joined : (id : ℕ) (ms : List ThreadMessage) → as_thread id (joined none ms) ≡ thread_among id ms
as-joined id [] = refl
as-joined id (m ∷ ms) = refl

IsAbove-map : (n : ℕ) (ts : Threads) → IsAbove number n ts → IsAbove thread_id n (map thread_of ts)
unfolding thread_of
IsAbove-map n [] a = tt
IsAbove-map n (t ∷ ts) a = (a.0, IsAbove-map n ts a.1)

IsAscending-map : (ts : Threads) → IsAscending number ts → IsAscending thread_id (map thread_of ts)
unfolding thread_of
IsAscending-map [] a = tt
IsAscending-map (t ∷ ts) a = (IsAbove-map t.0 ts a.0, IsAscending-map ts a.1)

pub reconstruct_lem :
    (from_str : String → Option Json) (history : List ChatMessage) (id : ℕ)
    → IsAscending thread_id (reconstruct from_str history).threads
      × (thread_numbered (reconstruct from_str history).threads id
          ≡ thread_among id (belonging from_str id history))
unfolding reconstruct
reconstruct_lem from_str history id =
    let ts = (collect_all from_str nothing history).by_thread in
    (
      IsAscending-map ts (collect_all-IsAscending from_str nothing history tt),
      numbered-found ts id
          ∙ ap (as_thread id) (found-collect_all from_str nothing history id tt)
          ∙ as-joined id (belonging from_str id history),
    )
