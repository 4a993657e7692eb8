-- ===== src/Handler/Hidden.antt =====
-- Private rooms are hidden from keys that do not own them.
use mathlib.Core.Path.{subst}
use clawdchat.Base.{
  ℕ, String, ◌≡◌, ◌≢◌, refl, ◌∙◌, Bool, true, false, ◌&&◌, Option, none, some, List, [], ◌++◌, keep,
  arith, if◌then◌else◌, Bool-cases, inl, inr,
}
use clawdchat.Base.Sorting.{
  every, every-append, every-sort, every-keep_self, every-map, every-weaken, every-true, sort,
}
use clawdchat.Map.{values}
use clawdchat.Core.Commands.{GetHistoryPayload, SubscribePayload}
use clawdchat.Core.Errors.{access_denied}
use clawdchat.Core.Models.{Room, ChatMessage}
use clawdchat.Core.Protocol.{Frame, Payload, rooms_body, error_frame}
use clawdchat.Store.Schema.{Store, Result, ok, err, query-ok}
use clawdchat.Store.Listings.{list_rooms_for_key, visible_to, under, by_name}
use clawdchat.Handler.{World, Request, find_room, authorize_room, may_read, is_empty_text, refused}
use clawdchat.Handler.Rooms.{handle_join_room, may_join}
use clawdchat.Handler.Reads.{authorized, handle_room_tip, handle_list_tasks}
use clawdchat.Handler.Listings.{
  handle_get_history, handle_list_agents, handle_room_info, handle_list_votes, handle_list_rooms,
  stored_rooms, rooms_reply, enriched,
}
use clawdchat.Handler.Subscriptions.{handle_subscribe, subscribe_checked}
use clawdchat.Handler.Outsiders.{private_public}

module _ (w : World) (r : Request) (id owner : String) (room : Room) where
  -- What a sender with another key than the owner's gets for a private room.
  authorize-private :
      find_room w.ephemeral_rooms w.store id ≡ some room
      → r.no_auth ≡ false
      → room.visibility ≡ "private"
      → room.owner_key ≡ some owner
      → owner ≢ r.api_key
      → authorize_room r.req_id id r.api_key r.no_auth w.store w.ephemeral_rooms
        ≡ refused (error_frame r.req_id access_denied)
  unfolding authorize_room
  authorize-private f n v o k = ground (arith, f, n, v, o, k, private_public)

  authorized-private :
      (answer : Frame)
      → authorize_room r.req_id id r.api_key r.no_auth w.store w.ephemeral_rooms
        ≡ refused (error_frame r.req_id access_denied)
      → authorized w r id answer ≡ error_frame r.req_id access_denied
  unfolding authorized
  authorized-private answer h = rw (h, authorized) refl

  -- Where keys are checked, a sender with another key than the owner's is refused a private room's
  -- tip, history, description, members, votes and tasks, and may neither join it nor, with an
  -- accepted address and a secret, subscribe to it.
  pub private-refused :
      (status : Option String) (limit : ℕ) (h : GetHistoryPayload) (p : SubscribePayload)
      (valid_url : String → Bool) (ids : ChatMessage → String)
      → find_room w.ephemeral_rooms w.store id ≡ some room
      → r.no_auth ≡ false
      → room.visibility ≡ "private"
      → room.owner_key ≡ some owner
      → owner ≢ r.api_key
      → h.room_id ≡ id
      → p.room_id ≡ id
      → valid_url p.webhook_url ≡ true
      → is_empty_text p.secret ≡ false
      → let refusal = error_frame r.req_id access_denied in
        (handle_room_tip w r (some id) ≡ refusal)
        × (handle_get_history w r (some h) ≡ refusal)
        × (handle_room_info w r (some id) ≡ refusal)
        × (handle_list_agents w r (some id) ≡ refusal)
        × (handle_list_votes w r (some (id, limit)) ≡ refusal)
        × (handle_list_tasks w r (some (id, status)) ≡ refusal)
        × (handle_join_room w r (some id) ≡ (w, refusal))
        × (handle_subscribe w r valid_url ids (some p) ≡ (w, refusal))
  unfolding handle_room_tip handle_get_history handle_room_info handle_list_agents handle_list_votes
      handle_list_tasks handle_join_room may_join handle_subscribe subscribe_checked
  private-refused status limit h p valid_url ids f n v o k at_h at_p url secret =
      let denied = authorize-private f n v o k in
      (
        authorized-private _ denied,
        rw at_h (authorized-private _ denied),
        rw (denied, handle_room_info) refl,
        authorized-private _ denied,
        authorized-private _ denied,
        authorized-private _ denied,
        ground (arith, f, n, v, o, k, private_public),
        rw (at_p, denied, url, secret) refl,
      )

-- The rooms that a reply lists.
abbrev pub rooms_in : Payload → List Room
rooms_in (rooms_body rooms) = rooms
rooms_in _ = []

stored_visible :
    (s : Store) (key : Option String) (parent_id : Option String) (rooms : List Room)
    → list_rooms_for_key s key parent_id ≡ ok rooms
    → every (visible_to key) rooms ≡ true
unfolding list_rooms_for_key
stored_visible s key parent_id rooms h =
    let seen = keep (λ r. under parent_id r && visible_to key r) (values s.rooms) in
    subst (λ xs. every (visible_to key) xs ≡ true) (query-ok s (sort by_name seen) rooms h)
      (every-sort (visible_to key) by_name seen
        ∙ every-weaken (λ r. under parent_id r && visible_to key r) (visible_to key) seen
            (λ x e. ground (arith, e))
            (every-keep_self (λ r. under parent_id r && visible_to key r) (values s.rooms)))

-- What a key may list, its holder may read.
visible_read :
    (r : Request) (room : Room)
    → visible_to (if is_empty_text r.api_key then none else some r.api_key) room ≡ true
    → may_read r.api_key r.no_auth room ≡ true
visible_read r room h = ground (arith, h)

stored_readable :
    (w : World) (r : Request) (parent_id : Option String) (rooms : List Room)
    → stored_rooms w r parent_id ≡ ok rooms
    → every (may_read r.api_key r.no_auth) rooms ≡ true
unfolding stored_rooms
stored_readable w r parent_id rooms h = elim (Bool-cases r.no_auth) [
  | inl e ↦ every-true (may_read r.api_key r.no_auth) rooms (λ x. ground (arith, e))
  | inr e ↦
      let key = if is_empty_text r.api_key then none else some r.api_key in
      every-weaken (visible_to key) (may_read r.api_key r.no_auth) rooms (visible_read r)
        (stored_visible w.store key parent_id rooms (unchecked e h))
]
  where
    unchecked :
        r.no_auth ≡ false
        → stored_rooms w r parent_id ≡ ok rooms
        → list_rooms_for_key w.store
            (if is_empty_text r.api_key then none else some r.api_key)
            parent_id
          ≡ ok rooms
    unchecked e h = ground (arith, e, h)

enriched_read :
    (w : World) (r : Request) (room : Room)
    → may_read r.api_key r.no_auth (enriched w room) ≡ may_read r.api_key r.no_auth room
unfolding enriched
enriched_read w r room = refl

reply_readable :
    (w : World) (r : Request) (parent_id : Option String) (o : Result (List Room))
    → ((rooms : List Room) → o ≡ ok rooms → every (may_read r.api_key r.no_auth) rooms ≡ true)
    → every (may_read r.api_key r.no_auth) (rooms_in (rooms_reply w r parent_id o).payload) ≡ true
unfolding rooms_reply every
reply_readable w r parent_id (err e) h = refl
reply_readable w r parent_id (ok rooms) h =
    let readable = may_read r.api_key r.no_auth in
    let more = keep (λ room. under parent_id room && readable room) (values w.ephemeral_rooms) in
    every-map readable (enriched w) (rooms ++ more) (enriched_read w r)
    ∙ every-append readable rooms more
    ∙ rw (h rooms refl) (
        every-weaken (λ room. under parent_id room && readable room) readable more
          (λ x e. ground (arith, e))
          (every-keep_self (λ room. under parent_id room && readable room)
            (values w.ephemeral_rooms)))

-- Every room that an agent is listed, be it stored or in memory, is one that the agent may read: it
-- is public or owned by the agent's key, or the server runs without authentication.
pub list_rooms-readable :
    (w : World) (r : Request) (parent_id : Option String)
    → every (may_read r.api_key r.no_auth) (rooms_in (handle_list_rooms w r parent_id).payload)
      ≡ true
unfolding handle_list_rooms
list_rooms-readable w r parent_id =
    reply_readable w r parent_id (stored_rooms w r parent_id) (stored_readable w r parent_id)
