-- ===== src/Web/Exposure.antt =====
-- What the endpoints show, and who may add a key.
use clawdchat.Base.{
  ℕ, String, ◌≡◌, refl, ◌∙◌, Bool, true, false, ◌&&◌, ◌||◌, Option, none, some, List, [], keep,
  same, arith,
}
use clawdchat.Base.Sorting.{sort, every, every-append, every-sort, every-weaken, every-keep_self}
use clawdchat.Map.{values, contains_key, get-insert}
use clawdchat.Core.Models.{Room, ChatMessage}
use clawdchat.Store.Schema.{Store, query, unwrap_or}
use clawdchat.Store.Rooms.{get_room}
use clawdchat.Store.Listings.{list_rooms_for_key, create_api_key, visible_to, under, by_name}
use clawdchat.Handler.{may_read}
use clawdchat.Web.{
  AppState, Response, answered, rejected, is_public, is_admin, create_key, api_list_rooms,
  history_of, found_room, api_room_history,
}

public_read : (key : String) (room : Room) → is_public room ≡ true → may_read key false room ≡ true
public_read key room h = ground (arith, h)

every-unwrap_or :
    (p : Room → Bool) (s : Store) (rooms : List Room)
    → every p rooms ≡ true
    → every p (unwrap_or (query s rooms) []) ≡ true
unfolding every
every-unwrap_or p s rooms h = ground (arith, h)

listed_public : (st : AppState) → every is_public (api_list_rooms st) ≡ true
unfolding api_list_rooms list_rooms_for_key
listed_public st =
    let seen = keep (λ r. under none r && visible_to none r) (values st.world.store.rooms) in
    every-append is_public (unwrap_or (query st.world.store (sort by_name seen)) [])
      (keep is_public (values st.world.ephemeral_rooms))
    ∙ ground (
      arith,
      every-unwrap_or is_public st.world.store (sort by_name seen) (
          every-sort is_public by_name seen
          ∙ every-weaken (λ r. under none r && visible_to none r) is_public seen
              (λ x e. ground (arith, e))
              (every-keep_self (λ r. under none r && visible_to none r)
                (values st.world.store.rooms))),
      every-keep_self is_public (values st.world.ephemeral_rooms),
    )

-- A response shows nothing, or the room is one that the key may read.
abbrev pub shows_readable : String → Option Room → Response (List ChatMessage) → Bool
shows_readable key o (rejected e) = true
shows_readable key none (answered ms) = false
shows_readable key (some room) (answered ms) = may_read key false room

history_readable :
    (s : Store) (key room_id : String) (o : Option Room)
    → shows_readable key o (history_of s room_id o) ≡ true
history_readable s key room_id none = refl
history_readable s key room_id (some room) = ground arith

-- What the endpoints show without a key, the holder of any key may read over a connection: every room
-- that is listed, and every room of the store whose history is answered.
pub rest_readable :
    (st : AppState) (key room_id : String)
    → (every (may_read key false) (api_list_rooms st) ≡ true)
      × (shows_readable key
            (found_room (get_room st.world.store room_id))
            (api_room_history st room_id)
          ≡ true)
unfolding api_room_history
rest_readable st key room_id = (
  every-weaken is_public (may_read key false) (api_list_rooms st) (public_read key)
      (listed_public st),
  history_readable st.world.store key room_id (found_room (get_room st.world.store room_id)),
)

-- A key that the store knows after a call for a new key, it knew before, or the call made it for a
-- caller who sent the administrator's secret while signup was enabled.
pub create_key_guarded :
    (last_address : String → Option String) (st : AppState) (now : ℕ) (peer : String)
    → (forwarded supplied : Option String) (key k : String)
    → contains_key
        (create_key last_address st now peer forwarded supplied key).0.world.store.api_keys
        k
      ≡ true
    → (contains_key st.world.store.api_keys k
        || (same key k && (st.signup_enabled && is_admin st.admin_secret supplied)))
      ≡ true
unfolding create_key create_api_key contains_key
create_key_guarded last_address st now peer forwarded supplied key k h =
    ground (arith, h, get-insert st.world.store.api_keys key "free" k)
