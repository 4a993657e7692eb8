-- ===== src/Store/Histories.antt =====
-- What the store answers about the messages of a room. A table is listed in the order of its rows'
-- insertion, which is that of their `rowid`s.
use clawdchat.Base.{
  ℕ, String, Bool, Option, none, some, List, [], ◌∷◌, same, ltb, leb, keep, dec_eq, ite,
}
use clawdchat.Base.Sorting.{take, reverse, sort}
use clawdchat.Base.Ascending.{by_key, beyond}
use clawdchat.Map.{values}
use clawdchat.Core.Models.{ChatMessage}
use clawdchat.Store.Schema.{Store, Result, query}

abbrev pub in_room : String → ChatMessage → Bool
in_room room_id m = same m.room_id room_id

abbrev pub seq_of : ChatMessage → ℕ
seq_of m = m.seq

-- The messages of a room in the order of their insertion.
unfoldable pub room_messages : Store → String → List ChatMessage
room_messages s room_id = keep (in_room room_id) (values s.messages)

-- `rowid > (SELECT rowid ...)`: nothing where the row is gone.
unfoldable pub rows_after : String → List ChatMessage → List ChatMessage
rows_after id [] = []
rows_after id (m ∷ ms) = let rest = rows_after id ms in ite (dec_eq m.message_id id) ms rest

abbrev pub by_time : ChatMessage → ChatMessage → Bool
by_time a b = leb a.timestamp b.timestamp

-- `ORDER BY created_at DESC, rowid DESC LIMIT limit`, and then turned round.
unfoldable pub latest : ℕ → List ChatMessage → List ChatMessage
latest limit rows = reverse (take limit (sort (λ a b. by_time b a) (reverse rows)))

unfoldable pub get_history_filtered :
    Store → String → ℕ → Option ℕ → Option String → Option ℕ → Result (List ChatMessage)
get_history_filtered s room_id limit before since (some seq_floor) =
    query s
      (take limit (sort (by_key seq_of) (keep (beyond seq_of seq_floor) (room_messages s room_id))))
get_history_filtered s room_id limit before (some since_id) none =
    query s
      (take limit (sort by_time (keep (in_room room_id) (rows_after since_id (values s.messages)))))
get_history_filtered s room_id limit (some before_ts) none none =
    query s (latest limit (keep (λ m. ltb m.timestamp before_ts) (room_messages s room_id)))
get_history_filtered s room_id limit none none none =
    query s (latest limit (room_messages s room_id))

unfoldable pub get_history : Store → String → ℕ → Option ℕ → Result (List ChatMessage)
get_history s room_id limit before = get_history_filtered s room_id limit before none none

unfoldable pub get_history_since :
    Store → String → ℕ → Option ℕ → Option String → Result (List ChatMessage)
get_history_since s room_id limit before since =
    get_history_filtered s room_id limit before since none
