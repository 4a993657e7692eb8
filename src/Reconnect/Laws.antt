-- ===== src/Reconnect/Laws.antt =====
-- Who can take a stash back, until when, and what it holds by then.
use mathlib.Core.List.{append-nil, append_assoc}
use clawdchat.Base.{
  ℕ, ◌-◌, ◌≤◌, ◌<◌, ◌≡◌, ◌≢◌, refl, String, Bool, false, some, List, [], ◌∷◌, ◌++◌, ltb, length,
  length-append, if◌then◌else◌, arith, dec_lt, ◌∙◌, ap, sym, ◌+◌,
}
use clawdchat.Map.{get, contains_key, get-insert, get-remove, get-update, get-retain}
use clawdchat.Core.Protocol.{Frame}
use clawdchat.Reconnect.{
  StashedAgent, ReconnectManager, reclaimed, refused, credential_mismatch, sweep, stash, reclaim,
  buffer_message, is_stashed, window, max_buffered_messages, is_fresh,
}

abbrev pub stash_of : ℕ → String → String → String → List String → List Frame → StashedAgent
stash_of now agent_id name api_key rooms missed = record {
  agent_id = agent_id;
  name = name;
  api_key = api_key;
  rooms = rooms;
  missed_messages = missed;
  disconnected_at = now;
}

-- The frames that one after the other are buffered for an agent.
pub buffer_all : ReconnectManager → String → List Frame → ReconnectManager
buffer_all m agent_id [] = m
buffer_all m agent_id (f ∷ fs) = buffer_all (buffer_message m agent_id f) agent_id fs

-- The first frames of a list, as many as there is room for.
pub take : ℕ → List Frame → List Frame
take n [] = []
take n (f ∷ fs) = let rest = take (n - 1) fs in if ltb 0 n then f ∷ rest else []

take-zero : (fs : List Frame) → take 0 fs ≡ []
unfolding take
take-zero [] = refl
take-zero (f ∷ fs) = refl

buffer-once :
    (m : ReconnectManager) (s : StashedAgent) (a : String) (f : Frame)
    → get m.stashed a ≡ some s
    → get (buffer_message m a f).stashed a
      ≡ some (
          if ltb (length s.missed_messages) max_buffered_messages
          then record s { missed_messages = s.missed_messages ++ f ∷ [] }
          else s)
unfolding buffer_message
buffer-once m s a f e = ground (
  arith,
  get-update m.stashed a
      (λ s.
        if ltb (length s.missed_messages) max_buffered_messages
        then record s { missed_messages = s.missed_messages ++ f ∷ [] }
        else s)
      a,
)

-- What is missed after some more frames.
abbrev missed : StashedAgent → List Frame → List Frame
missed s fs = s.missed_messages ++ take (max_buffered_messages - length s.missed_messages) fs

abbrev with_missed : StashedAgent → List Frame → StashedAgent
with_missed s fs = record s { missed_messages = fs }

missed-cons :
    (s : StashedAgent) (f : Frame) (fs : List Frame)
    → length s.missed_messages < max_buffered_messages
    → missed (with_missed s (s.missed_messages ++ f ∷ [])) fs ≡ missed s (f ∷ fs)
unfolding take
missed-cons s f fs h =
    rw (length-append s.missed_messages (f ∷ []), append_assoc)
      (ap (◌++◌ s.missed_messages) (ground (arith, spare)))
  where
    spare :
        max_buffered_messages - (length s.missed_messages + 1)
        ≡ max_buffered_messages - length s.missed_messages - 1
    spare = omega arith

missed-full :
    (s : StashedAgent) (fs : List Frame)
    → max_buffered_messages ≤ length s.missed_messages
    → missed s fs ≡ s.missed_messages
missed-full s fs h = rw (full, take-zero) (append-nil s.missed_messages)
  where
    full : max_buffered_messages - length s.missed_messages ≡ 0
    full = omega arith

buffer_all-missed :
    (m : ReconnectManager) (s : StashedAgent) (a : String) (fs : List Frame)
    → get m.stashed a ≡ some s
    → get (buffer_all m a fs).stashed a ≡ some (with_missed s (missed s fs))
unfolding buffer_all
buffer_all-missed m s a [] e = unfold take in rw (append-nil s.missed_messages) e
buffer_all-missed m s a (f ∷ fs) e =
    elim (dec_lt (length s.missed_messages) max_buffered_messages) [
      | yes lt ↦
          let s' : StashedAgent = with_missed s (s.missed_messages ++ f ∷ []) in
          buffer_all-missed (buffer_message m a f) s' a fs
            (buffer-once m s a f e ∙ ap some (ground arith))
          ∙ ap (λ ms. some (with_missed s ms)) (missed-cons s f fs lt)
      | no ge ↦
          buffer_all-missed (buffer_message m a f) s a fs
            (buffer-once m s a f e ∙ ap some (ground arith))
          ∙ ap (λ ms. some (with_missed s ms))
              (missed-full s fs (omega arith) ∙ sym (missed-full s (f ∷ fs) (omega arith)))
    ]

-- Within the window the key that was stashed gets back the rooms and the first two hundred of the
-- frames that were buffered since, in their order, and afterwards nothing is stashed for the agent.
pub reclaim-stash :
    (m : ReconnectManager) (t now : ℕ) (a name key : String) (rooms : List String) (fs : List Frame)
    → now - t < window
    → let back = reclaim (buffer_all (stash m t a name key rooms) a fs) now a key false in
      (back.1 ≡ reclaimed (some (stash_of t a name key rooms (take max_buffered_messages fs))))
      × (is_stashed back.0 a ≡ false)
unfolding reclaim stash is_stashed contains_key
reclaim-stash m t now a name key rooms fs h =
    let b : ReconnectManager = buffer_all (stash m t a name key rooms) a fs in
    ground (
      arith,
      buffer_all-missed (stash m t a name key rooms) (stash_of t a name key rooms []) a fs,
      get-insert m.stashed a (stash_of t a name key rooms []) a,
      get-remove b.stashed a a,
    )

-- Whoever asks with another key is refused, and the stash is left for its owner; this is so also
-- after the window, until the background task has run.
pub reclaim-refused :
    (m : ReconnectManager) (now : ℕ) (a key : String) (s : StashedAgent)
    → get m.stashed a ≡ some s
    → s.api_key ≢ key
    → reclaim m now a key false ≡ (m, refused credential_mismatch)
unfolding reclaim
reclaim-refused m now a key s e n = ground arith

-- For the key of a stash it makes no difference whether the background task has run at some time
-- before.
pub reclaim-sweep :
    (m : ReconnectManager) (s : StashedAgent) (t now : ℕ) (a : String) (no_auth : Bool)
    → get m.stashed a ≡ some s
    → t ≤ now
    → (reclaim (sweep m t) now a s.api_key no_auth).1 ≡ (reclaim m now a s.api_key no_auth).1
unfolding reclaim sweep
reclaim-sweep m s t now a no_auth e h = ground (arith, get-retain (is_fresh t) m.stashed a)
