-- ===== src/Store/Listings.antt =====
-- What the store lists of rooms, votes, subscriptions and keys. Where an `ORDER BY` leaves two rows
-- equal, they keep the order of their insertion.
use clawdchat.Base.{
  ℕ, String, Bool, true, false, ◌&&◌, ◌||◌, not, Option, none, some, List, [], ◌∷◌, map, same, leb,
  is_some_of, keep, length, text_leb, if◌then◌else◌,
}
use clawdchat.Base.Sorting.{take, sort}
use clawdchat.Map.{insert, contains_key, values}
use clawdchat.Core.Models.{Room, Subscription}
use clawdchat.Store.Schema.{Store, Result, ok, err, db_error, query, VoteMeta, SubscriptionRow}
use clawdchat.Store.Rooms.{create_room_with_visibility}

unfoldable pub create_room :
    Store
    → ℕ
    → String
    → String
    → Option String
    → Option String
    → Option String
    → Store × Result Room
create_room s now room_id name description parent_id created_by =
    create_room_with_visibility s now room_id name description parent_id created_by "private" none
      false

first_room : List Room → Option Room
first_room [] = none
first_room (r ∷ rs) = some r

-- Names are unique, so there is one row at most.
unfoldable pub get_room_by_name : Store → String → Result (Option Room)
unfolding first_room
get_room_by_name s name = query s (first_room (keep (λ r. same r.name name) (values s.rooms)))

abbrev pub by_name : Room → Room → Bool
by_name a b = text_leb a.name b.name

-- `parent_id = ?`, where a parent is asked for.
abbrev pub under : Option String → Room → Bool
under none room = true
under (some pid) room = is_some_of room.parent_id pid

unfoldable pub list_rooms : Store → Option String → Result (List Room)
list_rooms s parent_id = query s (sort by_name (keep (under parent_id) (values s.rooms)))

-- `visibility = 'public' OR owner_key = ?`.
abbrev pub visible_to : Option String → Room → Bool
visible_to none room = same room.visibility "public"
visible_to (some key) room = same room.visibility "public" || is_some_of room.owner_key key

unfoldable pub list_rooms_for_key : Store → Option String → Option String → Result (List Room)
list_rooms_for_key s api_key parent_id =
    query s (sort by_name (keep (λ r. under parent_id r && visible_to api_key r) (values s.rooms)))

unfoldable pub count_rooms_for_key : Store → String → Result ℕ
count_rooms_for_key s api_key =
    query s (length (keep (λ (r : Room). is_some_of r.owner_key api_key) (values s.rooms)))

-- `created_at DESC, vote_id DESC`.
abbrev pub newest_first : VoteMeta → VoteMeta → Bool
newest_first a b =
    if leb a.created_at b.created_at
    then (if leb b.created_at a.created_at then text_leb b.vote_id a.vote_id else false)
    else true

unfoldable pub list_votes : Store → String → ℕ → Result (List VoteMeta)
list_votes s room_id limit =
    query s (take limit (sort newest_first (keep (λ v. same v.room_id room_id) (values s.votes))))

abbrev pub by_creation : VoteMeta → VoteMeta → Bool
by_creation a b = leb a.created_at b.created_at

unfoldable pub list_open_votes : Store → Result (List VoteMeta)
list_open_votes s = query s (sort by_creation (keep (λ v. same v.status "open") (values s.votes)))

-- `AND room_id = ?`, where a room is asked for.
abbrev pub of_room : Option String → SubscriptionRow → Bool
of_room none row = true
of_room (some room_id) row = same row.sub.room_id room_id

unfoldable pub list_subscriptions : Store → String → Option String → Result (List Subscription)
list_subscriptions s owner_key room_id = query s (
    map SubscriptionRow.sub (
      sort (λ (a b : SubscriptionRow). leb b.sub.created_at a.sub.created_at)
        (keep (λ (row : SubscriptionRow). same row.owner_key owner_key && of_room room_id row)
          (values s.subscriptions))))

-- A new key has the tier that the column defaults to.
unfoldable pub create_api_key : Store → String → Store × Result Bool
create_api_key s api_key =
    if not s.available || contains_key s.api_keys api_key
    then (s, err db_error)
    else (record s { api_keys = insert s.api_keys api_key "free" }, ok true)
