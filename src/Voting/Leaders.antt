-- ===== src/Voting/Leaders.antt =====
-- Who may become the leader of a room, and when a leader is forgotten.
use clawdchat.Base.{
  String, ◌≡◌, ◌≢◌, refl, sym, ap, ◌∙◌, ite, Bool, true, false, ◌&&◌, not, Option, none, some, List,
  [], ◌∷◌, keep, same, contains, adjoin, contains-adjoin, if◌then◌else◌, arith, dec_eq,
}
use clawdchat.Map.{
  get, remove, contains_key, keys_where, get-insert, get-remove, contains-keys_where, passes,
}
use clawdchat.Core.Protocol.{leader_cleared, event, cleared_body}
use clawdchat.Broker.{Broker, broadcast_to_room_all}
use clawdchat.Voting.Polls.{VoteManager, ActiveElection}
use clawdchat.Voting.Elections.{
  decline_election, standing, conclude_election, settle, clear_each, clear_leader, get_leader,
  clear_leader_if_agent,
}

contains-keep :
    (p : String → Bool) (xs : List String) (a : String)
    → contains (keep p xs) a ≡ (contains xs a && p a)
unfolding contains keep
contains-keep p [] a = refl
contains-keep p (x ∷ xs) a = ground (arith, contains-keep p xs a, λ (e : x ≡ a). ap p e)

contains-standing :
    (e : ActiveElection) (a : String)
    → contains (standing e) a ≡ (contains e.candidates a && not (contains e.declined a))
unfolding standing
contains-standing e a = contains-keep (λ c. not (contains e.declined c)) e.candidates a

module _ (choose : List String → String) where
  -- What is relied on of the random choice: it takes one of the texts that it is given, if there are
  -- any.
  abbrev pub IsChoice : Type 0
  IsChoice = (x : String) (xs : List String) → contains (x ∷ xs) (choose (x ∷ xs)) ≡ true

  settle-winner :
      (m : VoteManager) (b : Broker) (r x : String) (xs : List String)
      → get (settle choose m b r (x ∷ xs)).0.room_leaders r ≡ some (choose (x ∷ xs))
  unfolding settle
  settle-winner m b r x xs = ground (arith, get-insert m.room_leaders r (choose (x ∷ xs)) r)

  conclude-settle :
      (m : VoteManager) (b : Broker) (r : String) (e : ActiveElection) (xs : List String)
      → get m.active_elections r ≡ some e
      → standing e ≡ xs
      → conclude_election choose m b r
        ≡ settle choose (record m { active_elections = remove m.active_elections r }) b r xs
  unfolding conclude_election
  conclude-settle m b r e xs he hx = ground (arith, he, hx)

  -- If the random choice takes one of the texts it is given, an election that some candidate still
  -- stands for gives the room the chosen one as its leader, who is a candidate and has not
  -- declined.
  pub elects :
      (m : VoteManager) (b : Broker) (r x : String) (xs : List String) (e : ActiveElection)
      → IsChoice
      → get m.active_elections r ≡ some e
      → standing e ≡ x ∷ xs
      → let winner = choose (x ∷ xs) in
        (get_leader (conclude_election choose m b r).0 r ≡ some winner)
        × (contains e.candidates winner ≡ true)
        × (contains e.declined winner ≡ false)
  unfolding get_leader
  elects m b r x xs e c he hx =
      let stands : (contains e.candidates (choose (x ∷ xs))
            && not (contains e.declined (choose (x ∷ xs))))
          ≡ true =
        sym (contains-standing e (choose (x ∷ xs))) ∙ rw hx (c x xs) in
      (
        rw (conclude-settle m b r e (x ∷ xs) he hx)
            (settle-winner (record m { active_elections = remove m.active_elections r }) b r x xs),
        ground (arith, stands),
        ground (arith, stands),
      )

  -- When every candidate has declined, the room is told that its leader is cleared, and whoever led
  -- it before goes on leading it.
  pub everyone_declined :
      (m : VoteManager) (b : Broker) (r : String) (e : ActiveElection)
      → get m.active_elections r ≡ some e
      → standing e ≡ []
      → ((conclude_election choose m b r).1
          ≡ broadcast_to_room_all b r
              (event leader_cleared (cleared_body r "all candidates declined")))
        × (get_leader (conclude_election choose m b r).0 r ≡ get_leader m r)
  unfolding settle get_leader
  everyone_declined m b r e he hx = rw (conclude-settle m b r e [] he hx) (refl, refl)

get-decline :
    (m : VoteManager) (r a : String) (e : ActiveElection)
    → get m.active_elections r ≡ some e
    → get (decline_election m r a).0.active_elections r
      ≡ some (record e { declined = adjoin e.declined a })
unfolding decline_election
get-decline m r a e he =
    ground
      (arith, he, get-insert m.active_elections r (record e { declined = adjoin e.declined a }) r)

decline-leaders :
    (m : VoteManager) (r a : String) → (decline_election m r a).0.room_leaders ≡ m.room_leaders
unfolding decline_election
decline-leaders m r a = ground arith

module _ (choose : List String → String) where
  declined-loses :
      (m : VoteManager) (b : Broker) (r a : String) (e : ActiveElection) (xs : List String)
      → IsChoice choose
      → get m.active_elections r ≡ some e
      → standing e ≡ xs
      → contains e.declined a ≡ true
      → get m.room_leaders r ≡ none
      → get_leader (conclude_election choose m b r).0 r ≢ some a
  unfolding get_leader
  declined-loses m b r a e [] c he hx hd hl h =
      ground (arith, (everyone_declined choose m b r e he hx).1, hl, h)
  declined-loses m b r a e (x ∷ xs) c he hx hd hl h =
      ground (arith, elects choose m b r x xs e c he hx, hd, h)

  -- If the random choice takes one of the texts it is given, then in a room without a leader an
  -- agent that declines a running election is not made its leader when the election is concluded.
  pub decliner-loses :
      (m : VoteManager) (b : Broker) (r a : String) (e : ActiveElection)
      → IsChoice choose
      → get m.active_elections r ≡ some e
      → get m.room_leaders r ≡ none
      → get_leader (conclude_election choose (decline_election m r a).0 b r).0 r ≢ some a
  decliner-loses m b r a e c he hl =
      let e' : ActiveElection = record e { declined = adjoin e.declined a } in
      declined-loses (decline_election m r a).0 b r a e' (standing e') c (get-decline m r a e he)
        refl (ground (arith, contains-adjoin e.declined a a)) (rw (decline-leaders m r a) hl)

get-clear_leader :
    (m : VoteManager) (b : Broker) (r j : String)
    → get (clear_leader m b r).0.room_leaders j ≡ ite (dec_eq r j) none (get m.room_leaders j)
unfolding clear_leader contains_key
get-clear_leader m b r j = ground (arith, get-remove m.room_leaders r j)

get-clear_each :
    (m : VoteManager) (b : Broker) (rs : List String) (j : String)
    → get (clear_each m b rs).0.room_leaders j
      ≡ (if contains rs j then none else get m.room_leaders j)
unfolding clear_each contains
get-clear_each m b [] j = refl
get-clear_each m b (r ∷ rs) j = ground (
  arith,
  get-clear_leader m b r j,
  get-clear_each (clear_leader m b r).0 (clear_leader m b r).1 rs j,
)

-- What a room's leader is once an agent leads no room.
abbrev pub unless_led_by : String → Option String → Option String
unless_led_by a none = none
unless_led_by a (some leader) = ite (dec_eq leader a) none (some leader)

unless_led :
    (a : String) (o : Option String)
    → (if passes (λ x. same x a) o then none else o) ≡ unless_led_by a o
unless_led a none = refl
unless_led a (some x) = ground arith

-- Clearing an agent's leaderships takes the leader from exactly the rooms that the agent leads.
pub get_leader-clear_leader_if_agent :
    (m : VoteManager) (b : Broker) (a r : String)
    → get_leader (clear_leader_if_agent m b a).0 r ≡ unless_led_by a (get_leader m r)
unfolding get_leader clear_leader_if_agent
get_leader-clear_leader_if_agent m b a r =
    get-clear_each m b (keys_where (λ x. same x a) m.room_leaders) r
    ∙ rw (contains-keys_where (λ x. same x a) m.room_leaders r)
        (unless_led a (get m.room_leaders r))
