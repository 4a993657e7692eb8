-- ===== src/Client/Waiting.antt =====
-- Which messages a wait may pass over.
use clawdchat.Base.{
  ℕ, String, ◌≡◌, refl, ap, sym, ◌∙◌, Bool, true, false, not, Option, none, some, List, [], ◌∷◌,
  map, keep, any, is_some, if◌then◌else◌, arith, Bool-cases, inl, inr,
}
use clawdchat.Base.Sorting.{take, sort, every, every-sort}
use clawdchat.Base.Ascending.{by_key, beyond}
use clawdchat.Core.Models.{Room, ChatMessage}
use clawdchat.Core.Commands.{GetHistoryPayload}
use clawdchat.Core.Protocol.{Frame, history_result, history_body, reply_frame}
use clawdchat.Core.Crypto.{Primitives}
use clawdchat.Store.Histories.{room_messages, seq_of, get_history_filtered}
use clawdchat.Handler.{World, Request, authorize_room, find_room, may_read}
use clawdchat.Handler.Reads.{authorized}
use clawdchat.Handler.Listings.{history_reply, handle_get_history}
use clawdchat.Client.{
  ClawChatClient, Received, ClientError, server, error_of, Outcome, done, failed, first, is_error,
  messages_of, responded, decrypted_history, decrypt_message, is_self_message, is_awaited,
  from_backlog, returned_or, wait_for_message, await_event,
}
use clawdchat.Base.Rising.{IsRising-sort}
use clawdchat.Client.Rising.{precedes, key_at, none-precedes}

-- The request of `wait_for_message` for the messages past a number.
abbrev pub page_request : String → ℕ → GetHistoryPayload
page_request room_id seq = record {
  room_id = room_id;
  limit = 32;
  before = none;
  since = none;
  since_seq = some seq;
}

-- The messages that a response carries.
page_of : Frame → List ChatMessage
page_of f = if is_error f then [] else messages_of f.payload

awaited-decrypt_message :
    (c : Primitives) (client : ClawChatClient) (m : ChatMessage)
    → is_awaited client (decrypt_message c client m) ≡ is_awaited client m
unfolding decrypt_message is_self_message
awaited-decrypt_message c client m = refl

-- Decrypting changes neither what is awaited nor its number.
seq-first_decrypted :
    (c : Primitives) (client : ClawChatClient) (ms : List ChatMessage)
    → key_at seq_of (first (is_awaited client) (map (decrypt_message c client) ms))
      ≡ key_at seq_of (first (is_awaited client) ms)
unfolding decrypt_message is_self_message
seq-first_decrypted c client [] = refl
seq-first_decrypted c client (m ∷ ms) = elim (Bool-cases (is_awaited client m)) [
  | inl e ↦ rw (awaited-decrypt_message c client m, e) refl
  | inr e ↦ rw (awaited-decrypt_message c client m, e) (seq-first_decrypted c client ms)
]

abbrev pub got : Outcome (Option ChatMessage) → Option ChatMessage
got (done o) = o
got (failed e) = none

got-returned_or : (o : Option ChatMessage) → got (returned_or o (done none)) ≡ o
got-returned_or none = refl
got-returned_or (some m) = refl

-- What is returned at once comes from the page, unless the response is an error.
from_response :
    (c : Primitives) (client : ClawChatClient) (e : ClientError) (b : Bool) (f : Frame)
    → (m : ChatMessage)
    → got (
        from_backlog client
          (decrypted_history c client (if b then failed e else done f))
          (done none))
      ≡ some m
    → key_at seq_of (first (is_awaited client) (if b then [] else messages_of f.payload))
      ≡ some m.seq
from_response c client e true f m h = ground (arith, h)
from_response c client e false f m h =
    sym (seq-first_decrypted c client (messages_of f.payload))
    ∙ ap (key_at seq_of) (
        sym (
          got-returned_or
            (first (is_awaited client) (map (decrypt_message c client) (messages_of f.payload))))
        ∙ h)

from_page :
    (c : Primitives) (client : ClawChatClient) (room_id : String) (f : Frame) (m : ChatMessage)
    → wait_for_message c client room_id (some f) [] ≡ done (some m)
    → key_at seq_of (first (is_awaited client) (page_of f)) ≡ some m.seq
unfolding wait_for_message clawdchat.Client.get_history_filtered page_of responded await_event
from_page c client room_id f m h =
    from_response c client (server (error_of f.payload)) (is_error f) f m (ap got h)

page-handle_get_history :
    (w : World) (r : Request) (room_id : String) (seq : ℕ) (p : ChatMessage → Bool) (n : ℕ)
    → key_at seq_of (first p (page_of (handle_get_history w r (some (page_request room_id seq)))))
      ≡ some n
    → key_at seq_of (
        first p (
          take 32
            (sort (by_key seq_of) (keep (beyond seq_of seq) (room_messages w.store room_id)))))
      ≡ some n
unfolding page_of handle_get_history authorized get_history_filtered history_reply authorize_room
page-handle_get_history w r room_id seq p n h = ground (arith, h)

-- If a wait that asks the server for the messages past `seq` and whose time is then over returns a
-- message, then no message of the room past `seq` with a smaller number than that one's is awaited:
-- each is a thinking pulse, the system's or the client's own.
pub wait_oldest :
    (c : Primitives) (client : ClawChatClient) (w : World) (r : Request) (room_id : String)
    → (seq : ℕ) (m : ChatMessage)
    → wait_for_message c client room_id
        (some (handle_get_history w r (some (page_request room_id seq))))
        []
      ≡ done (some m)
    → every
        (λ x. not (precedes seq_of (is_awaited client) m.seq x))
        (keep (beyond seq_of seq) (room_messages w.store room_id))
      ≡ true
wait_oldest c client w r room_id seq m h =
    let past = keep (beyond seq_of seq) (room_messages w.store room_id) in
    let passed = λ (x : ChatMessage). not (precedes seq_of (is_awaited client) m.seq x) in
    sym (every-sort passed (by_key seq_of) past)
    ∙ none-precedes seq_of (is_awaited client) 32 (sort (by_key seq_of) past) m.seq
        (IsRising-sort seq_of past)
        (page-handle_get_history w r room_id seq (is_awaited client) m.seq (
          from_page c client room_id (handle_get_history w r (some (page_request room_id seq))) m
            h))

is_some-first :
    (c : Primitives) (client : ClawChatClient) (ms : List ChatMessage)
    → is_some (first (is_awaited client) (map (decrypt_message c client) ms))
      ≡ any (is_awaited client) ms
unfolding any
is_some-first c client [] = refl
is_some-first c client (m ∷ ms) =
    ground (arith, awaited-decrypt_message c client m, is_some-first c client ms)

got-found :
    (o : Option ChatMessage) (live : Outcome (Option ChatMessage))
    → is_some o ≡ true
    → is_some (got (returned_or o live)) ≡ true
got-found none live h = ground (arith, h)
got-found (some m) live h = refl

abbrev page_past : World → String → ℕ → List ChatMessage
page_past w room_id seq =
    take 32 (sort (by_key seq_of) (keep (beyond seq_of seq) (room_messages w.store room_id)))

readable_page :
    (w : World) (r : Request) (room_id : String) (seq : ℕ) (room : Room)
    → find_room w.ephemeral_rooms w.store room_id ≡ some room
    → may_read r.api_key r.no_auth room ≡ true
    → w.store.available ≡ true
    → handle_get_history w r (some (page_request room_id seq))
      ≡ reply_frame r.req_id history_result (history_body room_id (page_past w room_id seq))
unfolding handle_get_history authorized get_history_filtered history_reply authorize_room
readable_page w r room_id seq room found readable up = ground (arith, found, readable, up)

found_in :
    (c : Primitives) (client : ClawChatClient) (room_id : String) (events : List Received)
    → (req_id : Option String) (ms : List ChatMessage) → any (is_awaited client) ms ≡ true
    → is_some (
        got (
          wait_for_message c client room_id
            (some (reply_frame req_id history_result (history_body room_id ms)))
            events))
      ≡ true
unfolding wait_for_message clawdchat.Client.get_history_filtered responded
found_in c client room_id events req_id ms h =
    got-found (first (is_awaited client) (map (decrypt_message c client) ms))
      (await_event c client room_id events) (is_some-first c client ms ∙ h)

-- If the sender may read the room, the database is up and one of the first thirty-two messages of the
-- room past `seq` is awaited, then a wait that asks for the messages past `seq` returns a message,
-- whatever events come or do not come.
pub wait_found :
    (c : Primitives) (client : ClawChatClient) (w : World) (r : Request) (room_id : String)
    → (seq : ℕ) (events : List Received) (room : Room)
    → find_room w.ephemeral_rooms w.store room_id ≡ some room
    → may_read r.api_key r.no_auth room ≡ true
    → w.store.available ≡ true
    → any
        (is_awaited client)
        (take 32 (sort (by_key seq_of) (keep (beyond seq_of seq) (room_messages w.store room_id))))
      ≡ true
    → is_some (
        got (
          wait_for_message c client room_id
            (some (handle_get_history w r (some (page_request room_id seq))))
            events))
      ≡ true
wait_found c client w r room_id seq events room found readable up some_awaited =
    rw (readable_page w r room_id seq room found readable up)
      (found_in c client room_id events r.req_id (page_past w room_id seq) some_awaited)
