-- ===== src/Lantern/Contents.antt =====
-- What a reconstructed thread holds.
use mathlib.Core.Path.{subst}
use clawdchat.Base.{
  ℕ, ◌<◌, ◌≡◌, refl, sym, String, Bool, Option, none, some, List, [], ◌∷◌, any, keep, length, same,
  if◌then◌else◌, arith,
}
use clawdchat.Base.Sorting.{sort, any-sort}
use clawdchat.Base.Ascending.{IsAscending, by_key}
use clawdchat.Base.Rising.{IsRising, IsRising-sort, numbered, keep-sort}
use clawdchat.Core.Json.{Json, get_str}
use clawdchat.Core.Models.{ChatMessage}
use clawdchat.Lantern.Threads.{
  ThreadMessage, ThreadState, open_thread, resolved, fused, Thread, is_verb, first_basis, seq_of,
  thread_of, reconstruct,
}
use clawdchat.Lantern.Grouping.{
  belonging, thread_id, thread_numbered, thread_among, reconstruct_lem,
}

abbrev pub has_verb : String → ThreadMessage → Bool
has_verb v m = same m.verb v

-- Fused by any fusion, else resolved by any resolution, else open.
abbrev pub settled : List ThreadMessage → ThreadState
settled ms =
    if any (has_verb "FUSE") ms
    then fused
    else if any (has_verb "RESOLVE") ms
    then resolved
    else open_thread

-- The basis that the first resolution of a list gives.
abbrev pub basis_in : List ThreadMessage → Option String
basis_in [] = none
basis_in (m ∷ ms) = if same m.verb "RESOLVE" then get_str m.body "basis" else basis_in ms

-- The thread `id` of the messages `ms`, of which there is at least one: they stand in the order of their
-- numbers, those with one number as they stood in `ms`, and none is added or left out.
pub record IsThreadOf (id : ℕ) (ms : List ThreadMessage) (t : Thread) : Type 0 where
  pub nonempty : 0 < length ms
  pub same_id : t.id ≡ id
  pub rising : IsRising seq_of t.messages
  pub same_messages : (n : ℕ) → keep (numbered seq_of n) t.messages ≡ keep (numbered seq_of n) ms
  pub state : t.state ≡ settled ms
  pub basis : t.resolve_basis ≡ basis_in t.messages

-- No thread of no messages, and otherwise the thread of the messages.
abbrev pub IsMadeOf : ℕ → List ThreadMessage → Option Thread → Type 0
IsMadeOf id ms none = ms ≡ []
IsMadeOf id ms (some t) = IsThreadOf id ms t

first_basis_lem :
    (ms : List ThreadMessage) → first_basis (keep (is_verb "RESOLVE") ms) ≡ basis_in ms
unfolding keep
first_basis_lem [] = refl
first_basis_lem (m ∷ ms) = ground (arith, first_basis_lem ms)

among-IsMadeOf : (id : ℕ) (ms : List ThreadMessage) → IsMadeOf id ms (thread_among id ms)
unfolding thread_of
among-IsMadeOf id [] = refl
among-IsMadeOf id (m ∷ ms) = record {
  nonempty = omega arith;
  same_id = refl;
  rising = IsRising-sort seq_of (m ∷ ms);
  same_messages = λ n. keep-sort seq_of n (m ∷ ms);
  state = ground (
    arith,
    any-sort (has_verb "FUSE") (by_key seq_of) (m ∷ ms),
    any-sort (has_verb "RESOLVE") (by_key seq_of) (m ∷ ms),
  );
  basis = first_basis_lem (sort (by_key seq_of) (m ∷ ms));
}

-- The threads of a history ascend strictly in their numbers. The thread numbered `id` holds the
-- messages that name it or, naming none, have it as their own number, each once and in the order of
-- their numbers; it is fused if one of them is a fusion, else resolved if one is a resolution, else
-- open; and its basis is that of the first resolution. There is no such thread exactly when there are
-- no such messages.
pub reconstruct-IsMadeOf :
    (from_str : String → Option Json) (history : List ChatMessage) (id : ℕ)
    → IsAscending thread_id (reconstruct from_str history).threads
      × IsMadeOf id
          (belonging from_str id history)
          (thread_numbered (reconstruct from_str history).threads id)
reconstruct-IsMadeOf from_str history id =
    let (ascending, at) = reconstruct_lem from_str history id in
    (
      ascending,
      subst (IsMadeOf id (belonging from_str id history)) (sym at)
          (among-IsMadeOf id (belonging from_str id history)),
    )
