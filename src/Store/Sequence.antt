-- ===== src/Store/Sequence.antt =====
-- The numbers of a room's messages grow through inserts, failures, purges and outages alike.
use clawdchat.Base.{
  ℕ, ◌+◌, ◌≤◌, ◌<◌, String, ◌≡◌, refl, ap, ite, Bool, Option, List, [], ◌∷◌, arith, dec_eq, or_else,
  Bool-cases, inl, inr, ◌⊎◌,
}
use clawdchat.Map.{get, get-insert}
use clawdchat.Core.Json.{Json}
use clawdchat.Core.Models.{ChatMessage}
use clawdchat.Store.Schema.{Store, Result, ok, err, db_error}
use clawdchat.Store.Messages.{insert_message, is_refused, purge_messages_by_tier}
use clawdchat.Store.Identities.{claim_agent_identity}

-- The durable high-water mark of a room.
abbrev pub tip : Store → String → ℕ
tip s room_id = or_else (get s.room_sequences room_id) 0

pub record NewMessage : Type 0 where
  pub now : ℕ
  pub message_id : String
  pub room_id : String
  pub agent_id : String
  pub agent_name : String
  pub content : String
  pub reply_to : Option String
  pub metadata : Json

abbrev pub insert_new : Store → NewMessage → Store × Result ChatMessage
insert_new s n =
    insert_message s n.now n.message_id n.room_id n.agent_id n.agent_name n.content n.reply_to
      n.metadata

-- An insert that succeeds takes the number after the mark and moves the mark to it; one that fails
-- changes nothing. The marks of other rooms stay.
pub insert_message-seq :
    (s : Store) (n : NewMessage) (r : String)
    → ((m : ChatMessage) × ((insert_new s n).1 ≡ ok m)
        × (m.seq ≡ tip s n.room_id + 1)
        × (tip (insert_new s n).0 r ≡ ite (dec_eq n.room_id r) m.seq (tip s r)))
      ⊎ (((insert_new s n).1 ≡ err db_error) × ((insert_new s n).0 ≡ s))
unfolding insert_message
insert_message-seq s n r = elim (Bool-cases refused) [
  | inl e ↦ inr (rw (e, insert_message) refl, rw (e, insert_message) refl)
  | inr e ↦ inl (
    stored,
    rw (e, insert_message) refl,
    refl,
    rw (e, insert_message)
        (ground (arith, get-insert s.room_sequences n.room_id (tip s n.room_id + 1) r)),
  )
]
  where
    refused : Bool
    refused = is_refused s n.message_id n.room_id n.reply_to (tip s n.room_id + 1) (tip s n.room_id)

    stored : ChatMessage
    stored = record {
      message_id = n.message_id;
      room_id = n.room_id;
      agent_id = n.agent_id;
      agent_name = n.agent_name;
      content = n.content;
      reply_to_message = n.reply_to;
      metadata = n.metadata;
      timestamp = n.now;
      seq = tip s n.room_id + 1;
    }

-- What the server does to the store that could bear on its numbers.
pub data Call : Type 0 where
  inserts : NewMessage → Call
  purges : String → ℕ → Call
  claims : String → String → Call
  outage : Bool → Call

unfoldable pub call : Store → Call → Store
call s (inserts n) = (insert_new s n).0
call s (purges tier cutoff) = (purge_messages_by_tier s tier cutoff).0
call s (claims a key) = (claim_agent_identity s a key).0
call s (outage up) = record s { available = up }

unfoldable pub run : Store → List Call → Store
run s [] = s
run s (c ∷ cs) = run (call s c) cs

tip-call : (s : Store) (c : Call) (r : String) → tip s r ≤ tip (call s c) r
unfolding call
tip-call s (inserts n) r = elim (insert_message-seq s n r) [
  | inl (m, _, e, p) ↦ rw p (ground (arith, e))
  | inr (_, e) ↦ rw e (omega arith)
]
tip-call s (purges tier cutoff) r = unfold purge_messages_by_tier in ground arith
tip-call s (claims a key) r = unfold claim_agent_identity in ground arith
tip-call s (outage up) r = omega arith

tip-run : (s : Store) (cs : List Call) (r : String) → tip s r ≤ tip (run s cs) r
unfolding run
tip-run s [] r = omega arith
tip-run s (c ∷ cs) r = omega (arith, tip-call s c r, tip-run (call s c) cs r)

seq-insert :
    (s : Store) (n : NewMessage) (m : ChatMessage)
    → (insert_new s n).1 ≡ ok m
    → (m.seq ≡ tip s n.room_id + 1) × (tip (insert_new s n).0 n.room_id ≡ m.seq)
seq-insert s n m h = elim (insert_message-seq s n n.room_id) [
  | inl (m', e, p, q) ↦ ground (arith, e, p, q)
  | inr (e, _) ↦ cc
]

-- Two messages that a room accepts, whatever inserts, purges, claims and outages come between them,
-- have numbers that grow.
pub seq-increases :
    (s : Store) (n n' : NewMessage) (cs : List Call) (m m' : ChatMessage)
    → n.room_id ≡ n'.room_id
    → (insert_new s n).1 ≡ ok m
    → (insert_new (run (insert_new s n).0 cs) n').1 ≡ ok m'
    → m.seq < m'.seq
seq-increases s n n' cs m m' same_room first second =
    let (p, q) = seq-insert s n m first in
    let (p', q') = seq-insert (run (insert_new s n).0 cs) n' m' second in
    let grows = tip-run (insert_new s n).0 cs n.room_id in
    omega (arith, p, q, p', grows, ap (tip (run (insert_new s n).0 cs)) same_room)
