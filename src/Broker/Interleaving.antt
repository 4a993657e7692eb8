-- ===== src/Broker/Interleaving.antt =====
-- The turn token while calls for different rooms run at the same time, and what one call does when no
-- other call for its room runs in the middle of it.
use mathlib.Core.Path.{subst}
use clawdchat.Base.{
  String, ◌≡◌, refl, ap, sym, ◌∙◌, ite, false, Option, none, some, List, [], ◌∷◌, arith, dec_eq,
  Bool-cases, inl, inr, is_some,
}
use clawdchat.Map.{get, get-insert, get-remove, get-empty, contains_key, insert, Map}
use clawdchat.Broker.Seats.{Seats, seats}
use clawdchat.Broker.Members.{IsOrderly, new_broker-IsConsistent}
use clawdchat.Broker.{get_room_members, turn_holder, send_to_agent}
use clawdchat.Broker.Threads.{
  Thread, room_of, step, Interleaved, Call, joins, leaves, speaks, removes, started, Event, begins,
  proceeds, sends, put, proceed, next, interleave, at_start,
}
use clawdchat.Broker.Moves.{
  move, step-move, seats-step, IsPhase, move-IsPhase, IsPlaced, move-IsPlaced,
}

-- What is so of a room, by the call that is in progress for it.
abbrev IsFine : String → Option Thread → Seats → Type 0
IsFine r o s = IsPlaced r o × IsPhase o s

abbrev IsSound : Interleaved → Type 0
IsSound s = (r : String) → IsFine r (get s.working r) (seats s.broker r)

get-put :
    (m : Map Thread) (room : String) (o : Option Thread) (r : String)
    → get (put m room o) r ≡ ite (dec_eq room r) o (get m r)
get-put m room none r = get-remove m room r
get-put m room (some t) r = get-insert m room t r

-- What happens to one room and its call, and to no other.
only_here :
    (s : Interleaved) (s' : Interleaved) (room r : String) (o : Option Thread) (here : Seats)
    → IsSound s
    → IsFine room o here
    → get s'.working r ≡ ite (dec_eq room r) o (get s.working r)
    → seats s'.broker r ≡ ite (dec_eq room r) here (seats s.broker r)
    → IsFine r (get s'.working r) (seats s'.broker r)
only_here s s' room r o here v f w e = rw (w, e) (pick (dec_eq room r))
  where
    pick :
        (d : Dec (room ≡ r)) → IsFine r (ite d o (get s.working r)) (ite d here (seats s.broker r))
    pick (yes p) = subst (λ x. IsFine x o here) p f
    pick (no p) = v r

proceed-IsSound :
    (s : Interleaved) (room : String) (o : Option Thread)
    → IsSound s
    → get s.working room ≡ o
    → IsSound (proceed s room o)
proceed-IsSound s room none v e r = v r
proceed-IsSound s room (some t) v e r =
    let fine : IsFine room (some t) (seats s.broker room) =
      subst (λ o. IsFine room o (seats s.broker room)) e (v room) in
    let moved : IsFine (room_of t) (move t (seats s.broker (room_of t))).1
        (move t (seats s.broker (room_of t))).0 =
      (
        move-IsPlaced t (seats s.broker (room_of t)),
        move-IsPhase t (seats s.broker (room_of t))
            (subst (λ x. IsPhase (some t) (seats s.broker x)) (sym fine.0) fine.1),
      ) in
    only_here s (proceed s room (some t)) (room_of t) r (move t (seats s.broker (room_of t))).1
      (move t (seats s.broker (room_of t))).0 v moved
      (ap (λ x. get (put s.working x (step s.broker t).1) r) (sym fine.0)
        ∙ get-put s.working (room_of t) (step s.broker t).1 r
        ∙ ap (λ o. ite (dec_eq (room_of t) r) o (get s.working r)) (step-move s.broker t))
      (seats-step s.broker t r)

started-IsPhase : (c : Call) (s : Seats) → IsOrderly s → IsPhase (some (started c)) s
unfolding started
started-IsPhase (joins a room) s v = v
started-IsPhase (leaves a room) s v = v
started-IsPhase (speaks a room) s v = v
started-IsPhase (removes room) s v = v

idle-IsOrderly :
    (r : String) (o : Option Thread) (s : Seats) → o ≡ none → IsFine r o s → IsOrderly s
idle-IsOrderly r o s e f = (subst (λ o. IsFine r o s) e f).1

-- A room that waits for nothing lets a call begin.
begin-IsSound :
    (s : Interleaved) (c : Call)
    → IsSound s
    → get s.working (room_of (started c)) ≡ none
    → IsSound (record s { working = insert s.working (room_of (started c)) (started c) })
begin-IsSound s c v free r =
    let room = room_of (started c) in
    only_here s (record s { working = insert s.working room (started c) }) room r (some (started c))
      (seats s.broker room) v
      (
        refl,
        started-IsPhase c (seats s.broker room)
            (idle-IsOrderly room (get s.working room) (seats s.broker room) free (v room)),
      )
      (get-insert s.working room (started c) r) (ground arith)

absent : (o : Option Thread) → is_some o ≡ false → o ≡ none
absent none e = refl
absent (some t) e = ground (arith, e)

next-IsSound : (s : Interleaved) (e : Event) → IsSound s → IsSound (next s e)
unfolding next
next-IsSound s (begins c) v = elim (Bool-cases (contains_key s.working (room_of (started c)))) [
  | inl e ↦ rw e v
  | inr e ↦ rw e (
      begin-IsSound s c v (absent (get s.working (room_of (started c))) (unfold contains_key in e)))
]
next-IsSound s (proceeds room) v = proceed-IsSound s room (get s.working room) v refl
next-IsSound s (sends a f) v = unfold send_to_agent get_room_members turn_holder in v

interleave-IsSound : (s : Interleaved) (es : List Event) → IsSound s → IsSound (interleave s es)
unfolding interleave
interleave-IsSound s [] v = v
interleave-IsSound s (e ∷ es) v = interleave-IsSound (next s e) es (next-IsSound s e v)

at_start-IsSound : IsSound at_start
at_start-IsSound r = rw (get-empty {V = Thread} r) (tt, new_broker-IsConsistent r)

-- Calls begin on a new broker and make their accesses of its tables in any order, so that calls for
-- different rooms interleave at every access, but no call for a room begins while another one for that
-- room is in progress. Then, in every room for which no call is in progress: nobody is a member twice,
-- and the turn is held by a member, or by nobody and the room is empty.
pub interleave-IsOrderly :
    (es : List Event) (r : String)
    → get (interleave at_start es).working r ≡ none
    → IsOrderly (seats (interleave at_start es).broker r)
interleave-IsOrderly es r e =
    idle-IsOrderly r (get (interleave at_start es).working r)
      (seats (interleave at_start es).broker r) e
      (interleave-IsSound at_start es at_start-IsSound r)
