-- ===== src/Handler/Sealed.antt =====
-- Encrypted rooms: what is stored in them, and who numbers messages.
use clawdchat.Base.{
  ℕ, ◌+◌, String, ◌≡◌, ◌∙◌, refl, Bool, true, false, ◌||◌, not, Option, none, some, arith,
  if◌then◌else◌, Bool-cases, inl, inr, or_else,
}
use clawdchat.Map.{Map, get, get-insert, contains_key}
use clawdchat.Core.Json.{Json}
use clawdchat.Core.Commands.{SendMessagePayload, ThinkingPayload, DecisionPayload}
use clawdchat.Core.Models.{Room, ChatMessage}
use clawdchat.Core.Protocol.{Frame}
use clawdchat.Store.Schema.{Store, Result, ok, err}
use clawdchat.Store.Rooms.{get_room}
use clawdchat.Store.Messages.{insert_message}
use clawdchat.Core.Crypto.{is_ciphertext}
use clawdchat.Handler.{
  World, Request, guarded, find_room, room_is_encrypted, check_message,
  reject_plaintext_in_encrypted_room,
}
use clawdchat.Handler.Posts.{
  handle_send_message, handle_thinking, handle_decision, accept_message, record_message,
  publish_message, publish_thinking, announce_decision, decision_metadata, report_recorded,
  report_decision, check_decision, store_decision,
}

abbrev pub sealed : Map Room → Store → Option ChatMessage → Bool
sealed rooms s none = true
sealed rooms s (some m) = not (room_is_encrypted rooms s m.room_id) || is_ciphertext m.content

-- Every stored message of an encrypted room carries the marker of an encrypted text.
abbrev pub IsSealed : World → Type 0
IsSealed w = (id : String) → sealed w.ephemeral_rooms w.store (get w.store.messages id) ≡ true

-- Storing a message leaves the rooms as they are.
encrypted-insert :
    (rooms : Map Room) (s : Store) (now : ℕ) (id room a name content : String)
    (reply : Option String) (meta : Json) (other : String)
    → room_is_encrypted rooms (insert_message s now id room a name content reply meta).0 other
      ≡ room_is_encrypted rooms s other
unfolding insert_message room_is_encrypted find_room get_room
encrypted-insert rooms s now id room a name content reply meta other = ground arith

sealed-same :
    (rooms : Map Room) (s s' : Store) (o : Option ChatMessage)
    → ((room : String) → room_is_encrypted rooms s' room ≡ room_is_encrypted rooms s room)
    → sealed rooms s' o ≡ sealed rooms s o
sealed-same rooms s s' none h = refl
sealed-same rooms s s' (some m) h = rw (h m.room_id) refl

-- A content that may be stored in a room.
abbrev pub may_post : Map Room → Store → String → String → Bool
may_post rooms s room content = not (room_is_encrypted rooms s room) || is_ciphertext content

module _ (rooms : Map Room) (s : Store) (now : ℕ) (id room a name content : String)
    (reply : Option String) (meta : Json) where
  message-insert :
      (j : String)
      → may_post rooms s room content ≡ true
      → sealed rooms s (get s.messages j) ≡ true
      → sealed rooms s (get (insert_message s now id room a name content reply meta).0.messages j)
        ≡ true
  unfolding insert_message
  message-insert j p h =
      let message : ChatMessage = record {
        message_id = id;
        room_id = room;
        agent_id = a;
        agent_name = name;
        content = content;
        reply_to_message = reply;
        metadata = meta;
        timestamp = now;
        seq = or_else (get s.room_sequences room) 0 + 1;
      } in
      ground (arith, p, h, get-insert s.messages id message j)

  sealed-insert :
      (j : String)
      → may_post rooms s room content ≡ true
      → sealed rooms s (get s.messages j) ≡ true
      → let s' = (insert_message s now id room a name content reply meta).0 in
        sealed rooms s' (get s'.messages j) ≡ true
  sealed-insert j p h =
      let s' = (insert_message s now id room a name content reply meta).0 in
      sealed-same rooms s s' (get s'.messages j)
        (encrypted-insert rooms s now id room a name content reply meta)
      ∙ message-insert j p h

allowed :
    (req_id : Option String) (content room : String) (rooms : Map Room) (s : Store)
    → (reject_plaintext_in_encrypted_room req_id content room rooms s ≡ none)
    → may_post rooms s room content ≡ true
unfolding reject_plaintext_in_encrypted_room
allowed req_id content room rooms s h = ground (arith, h)

guarded-IsSealed :
    (w : World) (o : Option Frame) (rest : World × Frame)
    → IsSealed w
    → (o ≡ none → IsSealed rest.0)
    → IsSealed (guarded w o rest).0
guarded-IsSealed w none rest h k = k refl
guarded-IsSealed w (some f) rest h k = h

either-IsSealed :
    (c : Bool) (x y : World × Frame) → IsSealed x.0 → IsSealed y.0 → IsSealed (if c then x else y).0
either-IsSealed true x y h k = h
either-IsSealed false x y h k = k

abbrev Kept : World → World → Type 0
Kept w w' = (w'.store ≡ w.store) × (w'.ephemeral_rooms ≡ w.ephemeral_rooms)

check-Kept : (w : World) (r : Request) (content : String) → Kept w (check_message w r content).0
unfolding check_message
check-Kept w r content = (ground arith, ground arith)

Kept-IsSealed : (w w' : World) → Kept w w' → IsSealed w → IsSealed w'
Kept-IsSealed w w' k h id = rw (k.0, k.1) (h id)

record-IsSealed :
    (w : World) (r : Request) (room content : String) (reply : Option String) (meta : Json)
    → may_post w.ephemeral_rooms w.store room content ≡ true
    → IsSealed w
    → IsSealed (record_message w r room content reply meta).0
unfolding record_message
record-IsSealed w r room content reply meta p h id =
    elim (Bool-cases (contains_key w.ephemeral_rooms room)) [
      | inl e ↦ rw e (h id)
      | inr e ↦ rw e (
          sealed-insert w.ephemeral_rooms w.store r.now r.fresh room r.agent_id r.agent_name content
            reply meta id p (h id))
    ]

abbrev pub IsQuiet : (World → ChatMessage → World) → Type 0
IsQuiet publish = (w : World) (m : ChatMessage) → Kept w (publish w m)

recorded-IsSealed :
    (r : Request) (w : World) (publish : World → ChatMessage → World) (o : Result ChatMessage)
    → IsQuiet publish
    → IsSealed w
    → IsSealed (report_recorded r w publish o).0
unfolding report_recorded
recorded-IsSealed r w publish (ok m) q h = Kept-IsSealed w (publish w m) (q w m) h
recorded-IsSealed r w publish (err e) q h = h

accept-IsSealed :
    (w : World) (r : Request) (room content : String) (reply : Option String) (meta : Json)
    (publish : World → ChatMessage → World)
    → IsQuiet publish
    → IsSealed w
    → IsSealed (accept_message w r room content reply meta publish).0
unfolding accept_message
accept-IsSealed w r room content reply meta publish q h =
    let w' = (check_message w r content).0 in
    let kept : Kept w w' = check-Kept w r content in
    let h' : IsSealed w' = Kept-IsSealed w w' kept h in
    let w'' = (record_message w' r room content reply meta).0 in
    either-IsSealed _ _ _ h (
      guarded-IsSealed w
        (reject_plaintext_in_encrypted_room r.req_id content room w.ephemeral_rooms w.store) _ h
        (λ fine. guarded-IsSealed w' (check_message w r content).1 _ h' (λ _.
          recorded-IsSealed r w'' publish _ q (
            record-IsSealed w' r room content reply meta
              (rw (kept.0, kept.1) (allowed r.req_id content room w.ephemeral_rooms w.store fine))
              h'))))

publish_message-IsQuiet : (r : Request) (p : SendMessagePayload) → IsQuiet (publish_message r p)
unfolding publish_message
publish_message-IsQuiet r p w m = (refl, refl)

publish_thinking-IsQuiet : (r : Request) (p : ThinkingPayload) → IsQuiet (publish_thinking r p)
unfolding publish_thinking
publish_thinking-IsQuiet r p w m = (refl, refl)

announced-IsSealed :
    (w : World) (r : Request) (p : DecisionPayload)
    → IsSealed w
    → IsSealed (announce_decision w r p).0
unfolding announce_decision
announced-IsSealed w r p h = h

reported-IsSealed :
    (w : World) (r : Request) (p : DecisionPayload) (o : Result ChatMessage)
    → IsSealed w
    → IsSealed (report_decision w r p o).0
unfolding report_decision
reported-IsSealed w r p (ok m) h = announced-IsSealed w r p h
reported-IsSealed w r p (err e) h = h

stored-IsSealed :
    (w : World) (r : Request) (p : DecisionPayload)
    → may_post w.ephemeral_rooms w.store p.room_id p.content ≡ true
    → IsSealed w
    → IsSealed (store_decision w r p).0
unfolding store_decision
stored-IsSealed w r p fine h =
    let new : Store × Result ChatMessage =
      insert_message w.store r.now r.fresh p.room_id r.agent_id r.agent_name p.content none
        (decision_metadata r) in
    reported-IsSealed (record w { store = new.0 }) r p new.1
      (λ id.
        sealed-insert w.ephemeral_rooms w.store r.now r.fresh p.room_id r.agent_id r.agent_name
          p.content none (decision_metadata r) id fine (h id))

checked-decision :
    (w : World) (r : Request) (p : DecisionPayload)
    → check_decision w r p ≡ none
    → reject_plaintext_in_encrypted_room r.req_id p.content p.room_id w.ephemeral_rooms w.store
      ≡ none
unfolding check_decision
checked-decision w r p h = ground (arith, h)

decision-IsSealed :
    (w : World) (r : Request) (p : DecisionPayload)
    → IsSealed w
    → IsSealed (handle_decision w r (some p)).0
unfolding handle_decision
decision-IsSealed w r p h = guarded-IsSealed w (check_decision w r p) _ h (λ e.
    either-IsSealed (contains_key w.ephemeral_rooms p.room_id) (announce_decision w r p)
      (store_decision w r p) (announced-IsSealed w r p h)
      (stored-IsSealed w r p
        (allowed r.req_id p.content p.room_id w.ephemeral_rooms w.store (checked-decision w r p e))
        h))

-- The commands that post a message.
pub data Post : Type 0 where
  send : Option SendMessagePayload → Post
  think : Option ThinkingPayload → Post
  decide : Option DecisionPayload → Post

unfoldable pub post : World → Request → Post → World × Frame
post w r (send p) = handle_send_message w r p
post w r (think p) = handle_thinking w r p
post w r (decide p) = handle_decision w r p

-- If every stored message of an encrypted room carries the marker of an encrypted text, then so
-- does every one after a message, a thinking pulse or a decision is posted, by whomever and
-- wherever.
pub post-IsSealed : (w : World) (r : Request) (p : Post) → IsSealed w → IsSealed (post w r p).0
unfolding post handle_send_message handle_thinking handle_decision
post-IsSealed w r (send none) h = h
post-IsSealed w r (send (some p)) h =
    accept-IsSealed w r p.room_id p.content p.reply_to p.metadata (publish_message r p)
      (publish_message-IsQuiet r p) h
post-IsSealed w r (think none) h = h
post-IsSealed w r (think (some p)) h =
    accept-IsSealed w r p.room_id p.content none _ (publish_thinking r p)
      (publish_thinking-IsQuiet r p) h
post-IsSealed w r (decide none) h = h
post-IsSealed w r (decide (some p)) h = decision-IsSealed w r p h
