-- ===== src/Lantern/Threads.antt =====
-- Threads, collected from a room's decrypted history. A `BTreeMap` is a list in the order of its keys.
use clawdchat.Base.{
  ℕ, ◌+◌, String, Bool, Option, none, some, List, [], ◌∷◌, ◌++◌, any, keep, map, same, ltb, eqb,
  or_else, if◌then◌else◌,
}
use clawdchat.Base.Sorting.{sort}
use clawdchat.Base.Ascending.{by_key}
use clawdchat.Core.Json.{Json, null, get_field, get_str}
use clawdchat.Core.Models.{ChatMessage}
use clawdchat.Lantern.{Envelope, Hello, Parsed, hello, verb, parse}

pub record ThreadMessage : Type 0 where
  pub seq : ℕ
  pub from : String
  pub verb : String
  pub body : Json
  pub intent : Option String

pub data ThreadState : Type 0 where
  open_thread resolved fused : ThreadState

pub record Thread : Type 0 where
  pub id : ℕ
  pub messages : List ThreadMessage
  pub state : ThreadState
  pub resolve_basis : Option String

pub record Reconstructed : Type 0 where
  pub hellos : List (ℕ × Hello)
  pub threads : List Thread
  pub shared_state : List Json
  pub fuse_count : ℕ

abbrev pub Threads : Type 0
Threads = List (ℕ × List ThreadMessage)

-- `entry(tid).or_default().push(m)`.
unfoldable pub push : Threads → ℕ → ThreadMessage → Threads
push [] tid m = (tid, m ∷ []) ∷ []
push ((k, ms) ∷ rest) tid m =
    let more = push rest tid m in
    if eqb k tid
    then (k, ms ++ m ∷ []) ∷ rest
    else if ltb tid k
    then (tid, m ∷ []) ∷ (k, ms) ∷ rest
    else (k, ms) ∷ more

-- What the loop over the history has collected.
pub record Collected : Type 0 where
  pub hellos : List (ℕ × Hello)
  pub by_thread : Threads
  pub shared_state : List Json
  pub fuse_count : ℕ

-- A delta that is there and is not null.
abbrev pub deltas : Option Json → List Json
deltas none = []
deltas (some null) = []
deltas (some d) = d ∷ []

abbrev pub message_of : ℕ → Envelope → ThreadMessage
message_of seq e = record {
  seq = seq;
  from = e.from;
  verb = e.verb;
  body = e.body;
  intent = e.intent;
}

unfoldable pub collect : Collected → ℕ → Option Parsed → Collected
unfolding push
collect c seq none = c
collect c seq (some (hello h)) = record c { hellos = c.hellos ++ (seq, h) ∷ [] }
collect c seq (some (verb e)) =
    let fuses = same e.verb "FUSE" in
    record c {
      by_thread = push c.by_thread (or_else e.thread seq) (message_of seq e);
      fuse_count = if fuses then c.fuse_count + 1 else c.fuse_count;
      shared_state =
          c.shared_state ++ (if fuses then deltas (get_field e.body "shared_state_delta") else []);
    }

unfoldable pub collect_all : (String → Option Json) → Collected → List ChatMessage → Collected
unfolding collect
collect_all from_str c [] = c
collect_all from_str c (m ∷ ms) =
    collect_all from_str (collect c m.seq (parse from_str m.content)) ms

abbrev pub is_verb : String → ThreadMessage → Bool
is_verb v m = same m.verb v

abbrev pub first_basis : List ThreadMessage → Option String
first_basis [] = none
first_basis (m ∷ ms) = get_str m.body "basis"

abbrev pub seq_of : ThreadMessage → ℕ
seq_of m = m.seq

unfoldable pub thread_of : ℕ × List ThreadMessage → Thread
thread_of (id, unsorted) =
    let msgs = sort (by_key seq_of) unsorted in
    record {
      id = id;
      messages = msgs;
      state =
          if any (is_verb "FUSE") msgs
          then fused
          else if any (is_verb "RESOLVE") msgs
          then resolved
          else open_thread;
      resolve_basis = first_basis (keep (is_verb "RESOLVE") msgs);
    }

abbrev pub nothing : Collected
nothing = record { hellos = []; by_thread = []; shared_state = []; fuse_count = 0 }

unfoldable pub reconstruct : (String → Option Json) → List ChatMessage → Reconstructed
unfolding collect_all thread_of
reconstruct from_str history =
    let c = collect_all from_str nothing history in
    record {
      hellos = c.hellos;
      threads = map thread_of c.by_thread;
      shared_state = c.shared_state;
      fuse_count = c.fuse_count;
    }

abbrev pub first_of {ℓ} : {A : Type ℓ} → Option A → Option A → Option A
first_of none o = o
first_of (some a) o = some a

-- `format!("{} thread", verb)` where there is no claim, question or intent; a thread has a message.
unfoldable pub headline : (String → String) → List ThreadMessage → Option String
headline titled [] = none
headline titled (m ∷ ms) =
    first_of (get_str m.body "claim")
      (first_of (get_str m.body "question") (first_of m.intent (some (titled m.verb))))
