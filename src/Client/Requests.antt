-- ===== src/Client/Requests.antt =====
-- No reply is lost, and none is given twice.
use clawdchat.Base.{
  ℕ, ◌+◌, ◌≤◌, ◌||◌, String, ◌≡◌, refl, Bool, false, not, Option, none, some, List, [], ◌∷◌, ◌++◌,
  any, keep, same, length, length-append, if◌then◌else◌, arith, Bool-cases, inl, inr, dec_eq,
}
use clawdchat.Core.Protocol.{Frame, pong_frame}
use clawdchat.Client.Inbox.{
  Inbox, is_ping, push_event, answer, receive, expect, give_up, Step, read_frame, request, gave_up,
  step, run, new_inbox,
}

-- How many replies the request `id` has got.
abbrev pub replies : Inbox → String → ℕ
replies i id = length (keep (λ (e : String × Frame). same id e.0) i.answered)

-- One more if it still waits.
abbrev pub owed : Inbox → String → ℕ
owed i id = replies i id + (if any (same id) i.pending then 1 else 0)

-- All frames that were taken.
abbrev pub taken : Inbox → ℕ
taken i = length i.answered + (length i.events + length i.pongs)

any-removed :
    (id j : String) (ids : List String)
    → any (same id) (keep (λ k. not (same j k)) ids)
      ≡ (if same id j then false else any (same id) ids)
unfolding any keep
any-removed id j [] = ground arith
any-removed id j (k ∷ ids) = ground (arith, any-removed id j ids)

length-snoc : {A : Type 0} (xs : List A) (x : A) → length (xs ++ x ∷ []) ≡ length xs + 1
length-snoc xs x = length-append xs (x ∷ [])

replies-answered :
    (id j : String) (f : Frame) (es : List (String × Frame))
    → length (keep (λ (e : String × Frame). same id e.0) (es ++ (j, f) ∷ []))
      ≡ length (keep (λ (e : String × Frame). same id e.0) es) + (if same id j then 1 else 0)
unfolding keep
replies-answered id j f [] = ground arith
replies-answered id j f (e ∷ es) = ground (arith, replies-answered id j f es)

owed-answer :
    (i : Inbox) (f : Frame) (o : Option String) (id : String) → owed (answer i f o) id ≡ owed i id
owed-answer i f none id = refl
owed-answer i f (some j) id = elim (Bool-cases (any (same j) i.pending)) [
  | inl e ↦
      rw (e, replies-answered id j f i.answered, any-removed id j i.pending)
        (elim (dec_eq id j) [ yes q ↦ ground (arith, q, e) | no n ↦ ground (arith, n) ])
  | inr e ↦ rw e refl
]

-- How often a request with the id is sent, and how many frames are read.
abbrev pub sent : String → List Step → ℕ
sent id [] = 0
sent id (request j ∷ xs) = (if same id j then 1 else 0) + sent id xs
sent id (gave_up j ∷ xs) = sent id xs
sent id (read_frame j f ∷ xs) = sent id xs

abbrev pub read : List Step → ℕ
read [] = 0
read (request j ∷ xs) = read xs
read (gave_up j ∷ xs) = read xs
read (read_frame j f ∷ xs) = 1 + read xs

owed-receive :
    (i : Inbox) (e : Option String) (f : Frame) (id : String)
    → owed (receive i (e, f)) id ≡ owed i id
unfolding receive
owed-receive i e f id = elim (Bool-cases (is_ping f.frame_type)) [
  | inl p ↦ rw p refl
  | inr p ↦ rw p (owed-answer i f f.reply_to id)
]

any-snoc :
    (p : String → Bool) (ids : List String) (j : String)
    → any p (ids ++ j ∷ []) ≡ (any p ids || p j)
unfolding any
any-snoc p [] j = ground arith
any-snoc p (k ∷ ids) j = ground (arith, any-snoc p ids j)

owed-expect :
    (i : Inbox) (j id : String) → owed (expect i j) id ≤ (if same id j then 1 else 0) + owed i id
unfolding expect
owed-expect i j id = ground (arith, any-snoc (same id) i.pending j)

owed-give_up : (i : Inbox) (j id : String) → owed (give_up i j) id ≤ owed i id
unfolding give_up
owed-give_up i j id = ground (arith, any-removed id j i.pending)

owed-run : (i : Inbox) (xs : List Step) (id : String) → owed (run i xs) id ≤ sent id xs + owed i id
unfolding run step
owed-run i [] id = omega arith
owed-run i (request j ∷ xs) id =
    let rest = owed-run (expect i j) xs id in
    let here = owed-expect i j id in ground (arith, rest, here)
owed-run i (gave_up j ∷ xs) id =
    let rest = owed-run (give_up i j) xs id in
    let here = owed-give_up i j id in ground (arith, rest, here)
owed-run i (read_frame e f ∷ xs) id =
    let rest = owed-run (receive i (e, f)) xs id in
    let here = owed-receive i e f id in ground (arith, rest, here)

taken-push_event : (i : Inbox) (f : Frame) → taken (push_event i f) ≡ taken i + 1
taken-push_event i f = let l = length-snoc i.events f in omega (arith, l)

taken-answer : (i : Inbox) (f : Frame) (o : Option String) → taken (answer i f o) ≡ taken i + 1
taken-answer i f none = taken-push_event i f
taken-answer i f (some j) = elim (Bool-cases (any (same j) i.pending)) [
  | inl e ↦ rw e (let l = length-snoc i.answered (j, f) in omega (arith, l))
  | inr e ↦ rw e (taken-push_event i f)
]

taken-receive : (i : Inbox) (e : Option String) (f : Frame) → taken (receive i (e, f)) ≡ taken i + 1
unfolding receive
taken-receive i e f = elim (Bool-cases (is_ping f.frame_type)) [
  | inl p ↦ rw p (let l = length-snoc i.pongs (pong_frame e) in omega (arith, l))
  | inr p ↦ rw p (taken-answer i f f.reply_to)
]

taken-run : (i : Inbox) (xs : List Step) → taken (run i xs) ≡ taken i + read xs
unfolding run step expect give_up
taken-run i [] = omega arith
taken-run i (request j ∷ xs) = taken-run (expect i j) xs
taken-run i (gave_up j ∷ xs) = taken-run (give_up i j) xs
taken-run i (read_frame e f ∷ xs) =
    let rest = taken-run (receive i (e, f)) xs in
    let here = taken-receive i e f in omega (arith, rest, here)

nothing_owed : (id : String) → owed new_inbox id ≡ 0
unfolding any keep
nothing_owed id = refl

-- Whatever requests are sent or given up and whatever frames are read, in any order, from the start of
-- a connection on: no request has got more replies than requests with its id were sent, and every
-- frame that was read has become a reply to a request, an event or an answer to a ping.
pub run_lem :
    (xs : List Step) (id : String)
    → (replies (run new_inbox xs) id ≤ sent id xs) × (taken (run new_inbox xs) ≡ read xs)
run_lem xs id =
    let most = owed-run new_inbox xs id in
    let start = nothing_owed id in
    let all = taken-run new_inbox xs in (omega (arith, most, start), omega (arith, all))
