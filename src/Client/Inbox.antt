-- ===== src/Client/Inbox.antt =====
-- The reader task of a client: replies go to the requests that wait for them, pings are answered, and
-- all other frames are events; `setup` and `connect_ws` have the same loop. A frame comes with its own
-- id, and the requests that wait are a list.
use clawdchat.Base.{
  String, Bool, true, false, not, Option, none, some, List, [], ◌∷◌, ◌++◌, any, keep, same,
  if◌then◌else◌,
}
use clawdchat.Core.Protocol.{Frame, FrameType, ping, pong_frame}

pub record Inbox : Type 0 where
  pub pending : List String
  pub answered : List (String × Frame)
  pub events : List Frame
  pub pongs : List Frame

abbrev pub is_ping : FrameType → Bool
is_ping t = elim t [ ping ↦ true | _ ↦ false ]

abbrev pub push_event : Inbox → Frame → Inbox
push_event i f = record i { events = i.events ++ f ∷ [] }

-- `pending.remove(reply_to)`, and the frame to the request.
abbrev pub answer : Inbox → Frame → Option String → Inbox
answer i f none = push_event i f
answer i f (some id) =
    if any (same id) i.pending
    then record i {
      pending = keep (λ j. not (same id j)) i.pending;
      answered = i.answered ++ (id, f) ∷ [];
    }
    else push_event i f

-- One frame that was read.
unfoldable pub receive : Inbox → Option String × Frame → Inbox
receive i (id, f) =
    if is_ping f.frame_type
    then record i { pongs = i.pongs ++ pong_frame id ∷ [] }
    else answer i f f.reply_to

-- `request` waits for a reply from the moment before it sends, and gives up when the frame cannot be
-- sent or the time is over. The id is a fresh random one.
unfoldable pub expect : Inbox → String → Inbox
expect i id = record i {
  pending = if any (same id) i.pending then i.pending else i.pending ++ id ∷ [];
}

unfoldable pub give_up : Inbox → String → Inbox
give_up i id = record i { pending = keep (λ j. not (same id j)) i.pending }

-- What the reader and the requests do, in the order in which they take the lock.
pub data Step : Type 0 where
  read_frame : Option String → Frame → Step
  request gave_up : String → Step

unfoldable pub step : Inbox → Step → Inbox
unfolding receive expect give_up
step i (read_frame id f) = receive i (id, f)
step i (request id) = expect i id
step i (gave_up id) = give_up i id

unfoldable pub run : Inbox → List Step → Inbox
unfolding step
run i [] = i
run i (x ∷ xs) = run (step i x) xs

abbrev pub new_inbox : Inbox
new_inbox = record { pending = []; answered = []; events = []; pongs = [] }
