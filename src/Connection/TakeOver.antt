-- ===== src/Connection/TakeOver.antt =====
-- The newest connection of an agent has its id; what an older one does when it ends changes nothing.
use mathlib.Core.Path.{subst}
use clawdchat.Base.{
  ℕ, String, ◌≡◌, ◌≢◌, refl, sym, ap, ◌∙◌, Bool, true, false, Option, none, some, List, [], ◌∷◌,
  arith, same, or_else, adjoin,
}
use clawdchat.Map.{get, get-insert, insert, update}
use clawdchat.Core.Commands.{RegisterPayload}
use clawdchat.Core.Protocol.{agent_joined, rejoined_body, event}
use clawdchat.Broker.{
  Broker, AgentConnection, new_connection, create_agent_channel, join_room, broadcast_to_room,
}
use clawdchat.Broker.Sessions.{
  session, session_of, session-update, session-broadcast, session-join_room,
}
use clawdchat.Reconnect.{ReconnectManager}
use clawdchat.Store.Schema.{Store, Result, ok, err}
use clawdchat.Handler.Departure.{Server, Session, still_mine, disconnect, end_session, uncount}
use clawdchat.Connection.{
  Config, Arrival, Welcome, fresh, taken, rejoins, takes_over, Registered, rejected, closed,
  admitted, welcome, admit, admit_welcomed, admit_claimed, register, restore, rejoin, join_each,
  info_of, check_agents, claim, with_store,
}
use clawdchat.Connection.Identity.{is_admitted, register-claimed}

rejoin-session :
    (b : Broker) (x name : String) (rooms : List String) (a : String)
    → session (rejoin b x name rooms) a ≡ session b a
unfolding rejoin
rejoin-session b x name [] a = refl
rejoin-session b x name (r ∷ rest) a =
    let joined = (join_room b x r).0 in
    let f : AgentConnection → AgentConnection = λ c. record c { rooms = adjoin c.rooms r } in
    let listed = record joined { agents = update joined.agents x f } in
    let e = event agent_joined (rejoined_body r x name) in
    rejoin-session (broadcast_to_room listed r x e) x name rest a
    ∙ session-broadcast listed r x e a
    ∙ session-update joined x f a (λ c. refl)
    ∙ session-join_room b x r a

join_each-session :
    (b : Broker) (x : String) (rooms : List String) (a : String)
    → session (join_each b x rooms) a ≡ session b a
unfolding join_each
join_each-session b x [] a = refl
join_each-session b x (r ∷ rest) a =
    join_each-session (join_room b x r).0 x rest a ∙ session-join_room b x r a

restore-session :
    (b : Broker) (x name : String) (w : Welcome) (a : String)
    → session (restore b x name w) a ≡ session b a
unfolding restore
restore-session b x name fresh a = refl
restore-session b x name taken a = refl
restore-session b x name (rejoins st) a = rejoin-session b x name st.rooms a
restore-session b x name (takes_over rooms) a =
    session-update (join_each b x rooms) x (λ c. record c { rooms = rooms }) a (λ c. refl)
    ∙ join_each-session b x rooms a

-- The session that an answer gives out, if it admits.
abbrev pub session_in : Registered → Option Session
session_in (admitted c frames) = some c
session_in (rejected e) = none
session_in (closed e) = none

-- An answer that admits names the session by which its agent is registered.
abbrev IsRegistered : Server × Registered → Type 0
IsRegistered x =
    (c : Session)
    → session_in x.1 ≡ some c
    → session x.0.world.broker c.agent_id ≡ some c.session_id

given :
    (b : Broker) (d c : Session)
    → some d ≡ some c
    → session b d.agent_id ≡ some d.session_id
    → session b c.agent_id ≡ some c.session_id
given b d c h = subst (λ x. session b x.agent_id ≡ some x.session_id) (ap (λ o. or_else o d) h)

entered :
    (b : Broker) (id : String) (conn : AgentConnection)
    → session (record b { agents = insert b.agents id conn }) id ≡ some conn.session_id
entered b id conn = ground (arith, get-insert b.agents id conn id)

admit-IsRegistered :
    (s : Server) (a : Arrival) (p : RegisterPayload) (id : String) (w : Welcome)
    → IsRegistered (admit s a p id w)
unfolding admit new_connection
admit-IsRegistered s a p id w c h =
    let conn = new_connection (info_of a id p) a.fresh_session create_agent_channel p.key in
    let b = record s.world.broker { agents = insert s.world.broker.agents id conn } in
    let d : Session = record {
      agent_id = id;
      agent_name = p.name;
      api_key = p.key;
      session_id = a.fresh_session;
    } in
    given (restore b id p.name w) d c h
      (restore-session b id p.name w id ∙ entered s.world.broker id conn)

welcomed-IsRegistered :
    (s : Server) (a : Arrival) (p : RegisterPayload) (id : String) (x : ReconnectManager × Welcome)
    → IsRegistered (admit_welcomed s a p id x)
unfolding admit_welcomed
welcomed-IsRegistered s a p id (m, taken) c h = ground (arith, h)
welcomed-IsRegistered s a p id (m, fresh) c h =
    admit-IsRegistered (record s { stashes = m }) a p id fresh c h
welcomed-IsRegistered s a p id (m, rejoins st) c h =
    admit-IsRegistered (record s { stashes = m }) a p id (rejoins st) c h
welcomed-IsRegistered s a p id (m, takes_over rooms) c h =
    admit-IsRegistered (record s { stashes = m }) a p id (takes_over rooms) c h

claimed-IsRegistered :
    (s : Server) (c : Config) (a : Arrival) (p : RegisterPayload) (x : Store × Result Bool)
    → IsRegistered (admit_claimed s c a p x)
unfolding admit_claimed
claimed-IsRegistered s c a p (store, err e) d h = ground (arith, h)
claimed-IsRegistered s c a p (store, ok false) d h = ground (arith, h)
claimed-IsRegistered s c a p (store, ok true) d h =
    let id = or_else p.agent_id a.fresh_agent in
    let s' = with_store s store in
    welcomed-IsRegistered s' a p id (welcome s' a.instant id p.key p.reconnect c.no_auth) d h

admitted_session : (x : Registered) (c : Session) → session_in x ≡ some c → is_admitted x ≡ true
admitted_session (admitted c frames) d h = refl
admitted_session (rejected e) d h = ground (arith, h)
admitted_session (closed e) d h = ground (arith, h)

register-IsRegistered :
    (s : Server) (c : Config) (a : Arrival) (p : RegisterPayload) → IsRegistered (register s c a p)
register-IsRegistered s c a p d h =
    let w = (check_agents s.world c a.instant p.key).0 in
    let claims = claim s.world.store c.no_auth p.agent_id p.key in
    let e = register-claimed s c a p (admitted_session (register s c a p).1 d h) in
    ap (λ x. session x.0.world.broker d.agent_id) e
    ∙ claimed-IsRegistered (record s { world = w }) c a p claims d
        (ap (λ x. session_in x.1) (sym e) ∙ h)

still_mine-session :
    (o : Option AgentConnection) (sid : String) (old : String)
    → session_of o ≡ some sid
    → still_mine o old ≡ same sid old
unfolding still_mine
still_mine-session none sid old h = ground (arith, h)
still_mine-session (some c) sid old h = ground (arith, h)

disconnect_other :
    (t : Server) (no_auth : Bool) (now instant : ℕ) (old : Session)
    → still_mine (get t.world.broker.agents old.agent_id) old.session_id ≡ false
    → let t' = disconnect t no_auth now instant old in
      (t'.world.broker ≡ t.world.broker)
      × (t'.world.votes ≡ t.world.votes)
      × (t'.world.ephemeral_rooms ≡ t.world.ephemeral_rooms)
      × (t'.stashes ≡ t.stashes)
unfolding disconnect end_session uncount
disconnect_other t no_auth now instant old h = (rw h refl, rw h refl, rw h refl, rw h refl)

-- When a connection is admitted under an agent's id, the end of any other connection of that agent
-- then leaves rooms, turns, votes, the registry, the rooms in memory and the stashes as they are.
pub register-disconnect :
    (s : Server) (c : Config) (a : Arrival) (p : RegisterPayload) (new old : Session)
    (now instant : ℕ)
    → session_in (register s c a p).1 ≡ some new
    → old.agent_id ≡ new.agent_id
    → old.session_id ≢ new.session_id
    → let s' = (register s c a p).0 in
      let s'' = disconnect s' c.no_auth now instant old in
      (s''.world.broker ≡ s'.world.broker)
      × (s''.world.votes ≡ s'.world.votes)
      × (s''.world.ephemeral_rooms ≡ s'.world.ephemeral_rooms)
      × (s''.stashes ≡ s'.stashes)
register-disconnect s c a p new old now instant h same_agent older =
    let b = (register s c a p).0.world.broker in
    let registered = register-IsRegistered s c a p new h in
    disconnect_other (register s c a p).0 c.no_auth now instant old (
      ap (λ id. still_mine (get b.agents id) old.session_id) same_agent
      ∙ still_mine-session (get b.agents new.agent_id) new.session_id old.session_id registered
      ∙ ground (arith, older))
