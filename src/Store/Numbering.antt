-- ===== src/Store/Numbering.antt =====
-- The stored messages of a room stand in the order of their numbers, and none is numbered above the
-- room's high-water mark.
use clawdchat.Base.{
  ℕ, ◌+◌, ◌<◌, ◌≤◌, String, ◌≡◌, refl, Bool, true, false, not, none, some, List, [], ◌∷◌, ◌++◌, map,
  arith, keep, or_else, ltb, if◌then◌else◌, Bool-cases, dec_eq, ite, inl, inr,
}
use mathlib.Core.List.{append-nil}
use clawdchat.Base.Sorting.{keep-append, keep-map, keep_comm}
use clawdchat.Base.Ascending.{
  IsAscending, IsAtMost, IsAscending-keep, IsAtMost-keep, IsAtMost-trans, IsAtMost-snoc,
  IsAscending-snoc, IsAscending-map, IsAtMost-map,
}
use clawdchat.Map.{get, insert, contains_key, retain, values, Map, get-insert}
use clawdchat.Map.Listing.{values-insert, values-retain, values-update_all}
use clawdchat.Core.Models.{ChatMessage}
use clawdchat.Store.Schema.{Store}
use clawdchat.Store.Messages.{
  insert_message, is_refused, purge_messages_by_tier, is_purged, unlinked,
}
use clawdchat.Store.Identities.{claim_agent_identity}
use clawdchat.Store.Histories.{in_room, room_messages, seq_of}
use clawdchat.Store.Sequence.{
  tip, NewMessage, insert_new, Call, inserts, purges, claims, outage, call, run,
}

-- Ascending, and at most the mark.
abbrev pub IsNumberedTo : ℕ → List ChatMessage → Type 0
IsNumberedTo mark ms = IsAscending seq_of ms × IsAtMost seq_of mark ms

abbrev pub IsNumbered : Store → Type 0
IsNumbered s = (room_id : String) → IsNumberedTo (tip s room_id) (room_messages s room_id)

relink : Map ChatMessage → ChatMessage → ChatMessage
relink left m = record m { reply_to_message = unlinked left m.reply_to_message }

IsNumberedTo-purge :
    (left : Map ChatMessage) (p : ChatMessage → Bool) (room_id : String) (mark : ℕ)
    (ms : List ChatMessage)
    → IsNumberedTo mark (keep (in_room room_id) ms)
    → IsNumberedTo mark (keep (in_room room_id) (map (relink left) (keep p ms)))
unfolding relink
IsNumberedTo-purge left p room_id mark ms h =
    rw
      (
        keep-map (in_room room_id) (relink left) (keep p ms) (λ m. refl),
        keep_comm (in_room room_id) p ms,
      )
      (
        IsAscending-map seq_of (relink left) (keep p (keep (in_room room_id) ms)) (λ m. refl)
            (IsAscending-keep seq_of p (keep (in_room room_id) ms) h.0),
        IsAtMost-map seq_of (relink left) mark (keep p (keep (in_room room_id) ms)) (λ m. refl)
            (IsAtMost-keep seq_of mark p (keep (in_room room_id) ms) h.1),
      )

purge-IsNumbered :
    (s : Store) (tier : String) (cutoff : ℕ)
    → IsNumbered s
    → IsNumbered (purge_messages_by_tier s tier cutoff).0
unfolding purge_messages_by_tier room_messages relink
purge-IsNumbered s tier cutoff h room_id = elim (Bool-cases s.available) [
  | inl e ↦
      let p : ChatMessage → Bool = λ m. not (is_purged s tier cutoff m) in
      let left = retain p s.messages in
      rw (e, values-update_all (relink left) left, values-retain p s.messages)
        (IsNumberedTo-purge left p room_id (tip s room_id) (values s.messages) (h room_id))
  | inr e ↦ rw e (h room_id)
]

-- A message that is put behind the others where `b` is true.
IsNumberedTo-snoc :
    (b : Bool) (m : ChatMessage) (mark new : ℕ) (old : List ChatMessage)
    → IsNumberedTo mark old
    → mark ≤ new
    → (b ≡ true → (mark < m.seq) × (m.seq ≤ new))
    → IsNumberedTo new (old ++ (if b then m ∷ [] else []))
IsNumberedTo-snoc true m mark new old h le fits = (
  IsAscending-snoc seq_of mark m old h.0 h.1 (fits refl).0,
  IsAtMost-snoc seq_of new m old (IsAtMost-trans seq_of mark new old le h.1) (fits refl).1,
)
IsNumberedTo-snoc false m mark new old h le fits =
    rw (append-nil old) (h.0, IsAtMost-trans seq_of mark new old le h.1)

fresh_key : (m : Map ChatMessage) (k : String) → contains_key m k ≡ false → get m k ≡ none
unfolding contains_key
fresh_key m k h = ground arith

insert-IsNumbered : (s : Store) (n : NewMessage) → IsNumbered s → IsNumbered (insert_new s n).0
unfolding insert_message room_messages keep
insert-IsNumbered s n h r = elim (Bool-cases refused) [
  | inl e ↦ rw (e) (h r)
  | inr e ↦
      rw
        (
          e,
          values-insert s.messages n.message_id stored
              (fresh_key s.messages n.message_id (ground arith)),
          keep-append (in_room r) (values s.messages) (stored ∷ []),
        )
        (IsNumberedTo-snoc (in_room r stored) stored (tip s r) mark
          (keep (in_room r) (values s.messages)) (h r) (ground (arith, raised))
          (λ (b : in_room r stored ≡ true). (ground (arith, b), ground (arith, raised, b))))
]
  where
    high_water : ℕ
    high_water = tip s n.room_id

    new : ℕ
    new = if ltb high_water (high_water + 1) then high_water + 1 else high_water

    mark : ℕ
    mark = or_else (get (insert s.room_sequences n.room_id new) r) 0

    raised :
        get (insert s.room_sequences n.room_id new) r
        ≡ ite (dec_eq n.room_id r) (some new) (get s.room_sequences r)
    raised = get-insert s.room_sequences n.room_id new r

    refused : Bool
    refused = is_refused s n.message_id n.room_id n.reply_to (tip s n.room_id + 1) (tip s n.room_id)

    stored : ChatMessage
    stored = record {
      message_id = n.message_id;
      room_id = n.room_id;
      agent_id = n.agent_id;
      agent_name = n.agent_name;
      content = n.content;
      reply_to_message = n.reply_to;
      metadata = n.metadata;
      timestamp = n.now;
      seq = tip s n.room_id + 1;
    }

-- Stores with the same messages and marks.
same-IsNumbered :
    (s s' : Store)
    → s'.messages ≡ s.messages
    → s'.room_sequences ≡ s.room_sequences
    → IsNumbered s
    → IsNumbered s'
unfolding room_messages
same-IsNumbered s s' e f h r = rw (e, f) (h r)

claim-IsNumbered :
    (s : Store) (a key : String) → IsNumbered s → IsNumbered (claim_agent_identity s a key).0
unfolding claim_agent_identity
claim-IsNumbered s a key h =
    same-IsNumbered s (claim_agent_identity s a key).0 (ground arith) (ground arith) h

outage-IsNumbered :
    (s : Store) (up : Bool) → IsNumbered s → IsNumbered (record s { available = up })
outage-IsNumbered s up h = same-IsNumbered s (record s { available = up }) refl refl h

call-IsNumbered : (s : Store) (c : Call) → IsNumbered s → IsNumbered (call s c)
unfolding call
call-IsNumbered s (inserts n) h = insert-IsNumbered s n h
call-IsNumbered s (purges tier cutoff) h = purge-IsNumbered s tier cutoff h
call-IsNumbered s (claims a key) h = claim-IsNumbered s a key h
call-IsNumbered s (outage up) h = outage-IsNumbered s up h

-- If the messages of every room stand in the order of their numbers and none is above its room's
-- mark, then that is so after any inserts, purges, claims and outages.
pub run-IsNumbered : (s : Store) (cs : List Call) → IsNumbered s → IsNumbered (run s cs)
unfolding run
run-IsNumbered s [] h = h
run-IsNumbered s (c ∷ cs) h = run-IsNumbered (call s c) cs (call-IsNumbered s c h)
