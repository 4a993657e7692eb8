-- ===== src/Connection/Identity.antt =====
-- An agent id that a key has claimed is not given to another key.
use mathlib.Core.Path.{subst}
use clawdchat.Base.{
  ℕ, String, ◌≡◌, refl, sym, ap, ◌∙◌, Bool, true, false, not, Option, some, List, arith, or_else,
  if◌then◌else◌,
}
use clawdchat.Map.{get}
use clawdchat.Core.Commands.{RegisterPayload}
use clawdchat.Core.Errors.{unsupported_protocol, unauthorized, rate_limit_agents}
use clawdchat.Reconnect.{ReconnectManager}
use clawdchat.Store.Schema.{Store, Result, ok, err}
use clawdchat.Store.Identities.{claim_agent_identity, record_session_start}
use clawdchat.Store.Ownership.{claim-owner}
use clawdchat.Handler.{World}
use clawdchat.Handler.Departure.{Server}
use clawdchat.Connection.{
  Config, Arrival, Welcome, fresh, taken, rejoins, takes_over, Registered, rejected, closed,
  admitted, is_supported, authenticated, check_agents, claim, welcome, admit, admit_welcomed,
  admit_claimed, with_store, register,
}

abbrev pub is_admitted : Registered → Bool
is_admitted (admitted session frames) = true
is_admitted (rejected e) = false
is_admitted (closed e) = false

session-identities :
    (s : Store) (now : ℕ) (session agent name : String) (caps : List String)
    → (record_session_start s now session agent name caps).0.agent_identities ≡ s.agent_identities
unfolding record_session_start
session-identities s now session agent name caps = ground arith

admit-identities :
    (s : Server) (a : Arrival) (p : RegisterPayload) (id : String) (w : Welcome)
    → (admit s a p id w).0.world.store.agent_identities ≡ s.world.store.agent_identities
unfolding admit
admit-identities s a p id w =
    session-identities s.world.store a.now a.fresh_session id p.name p.capabilities

welcomed-identities :
    (s : Server) (a : Arrival) (p : RegisterPayload) (id : String) (x : ReconnectManager × Welcome)
    → (admit_welcomed s a p id x).0.world.store.agent_identities ≡ s.world.store.agent_identities
unfolding admit_welcomed
welcomed-identities s a p id (m, taken) = refl
welcomed-identities s a p id (m, fresh) = admit-identities (record s { stashes = m }) a p id fresh
welcomed-identities s a p id (m, rejoins st) =
    admit-identities (record s { stashes = m }) a p id (rejoins st)
welcomed-identities s a p id (m, takes_over rooms) =
    admit-identities (record s { stashes = m }) a p id (takes_over rooms)

-- Only a claim that was granted admits, and what it stored stays.
claimed-identities :
    (s : Server) (c : Config) (a : Arrival) (p : RegisterPayload) (x : Store × Result Bool)
    → is_admitted (admit_claimed s c a p x).1 ≡ true
    → (x.1 ≡ ok true)
      × ((admit_claimed s c a p x).0.world.store.agent_identities ≡ x.0.agent_identities)
unfolding admit_claimed with_store
claimed-identities s c a p (store, err e) h = ground arith
claimed-identities s c a p (store, ok false) h = ground arith
claimed-identities s c a p (store, ok true) h =
    let id = or_else p.agent_id a.fresh_agent in
    let s' = with_store s store in
    (refl, welcomed-identities s' a p id (welcome s' a.instant id p.key p.reconnect c.no_auth))

claim-known :
    (s : Store) (id key k : String)
    → (claim_agent_identity s id key).1 ≡ ok true
    → get s.agent_identities id ≡ some k
    → k ≡ key
unfolding claim_agent_identity
claim-known s id key k h known = ground (arith, h, known)

agents-store :
    (w : World) (c : Config) (instant : ℕ) (key : String)
    → (check_agents w c instant key).0.store ≡ w.store
unfolding check_agents
agents-store w c instant key = ground arith

Admits : Server × Registered → Type 0
Admits x = is_admitted x.1 ≡ true

-- Early returns that do not admit.
past :
    (b : Bool) (early x : Server × Registered)
    → is_admitted early.1 ≡ false
    → is_admitted (if b then early else x).1 ≡ true
    → (if b then early else x) ≡ x
past true early x shut h = ground (arith, shut, h)
past false early x shut h = refl

-- What a registration that is admitted has passed.
pub register-claimed :
    (s : Server) (c : Config) (a : Arrival) (p : RegisterPayload)
    → is_admitted (register s c a p).1 ≡ true
    → register s c a p
      ≡ admit_claimed
          (record s { world = (check_agents s.world c a.instant p.key).0 })
          c
          a
          p
          (claim s.world.store c.no_auth p.agent_id p.key)
unfolding register Admits
register-claimed s c a p h =
    let (w, fits) = check_agents s.world c a.instant p.key in
    let claimed =
      admit_claimed (record s { world = w }) c a p (claim w.store c.no_auth p.agent_id p.key) in
    let limited =
      if not fits then (record s { world = w }, closed rate_limit_agents) else claimed in
    let keyed =
      if not (authenticated c s.world.store p.key) then (s, closed unauthorized) else limited in
    let e1 =
      past (not (is_supported (or_else p.protocol_version 1))) (s, closed unsupported_protocol)
        keyed refl h in
    let h1 : is_admitted keyed.1 ≡ true = subst Admits e1 h in
    let e2 =
      past (not (authenticated c s.world.store p.key)) (s, closed unauthorized) limited refl h1 in
    let h2 : is_admitted limited.1 ≡ true = subst Admits e2 h1 in
    let e3 = past (not fits) (record s { world = w }, closed rate_limit_agents) claimed refl h2 in
    e1
    ∙ e2
    ∙ e3
    ∙ ap
        (λ store.
          admit_claimed (record s { world = w }) c a p (claim store c.no_auth p.agent_id p.key))
        (agents-store s.world c a.instant p.key)

claim-asked :
    (s : Store) (no_auth : Bool) (o : Option String) (id key : String)
    → no_auth ≡ false
    → o ≡ some id
    → claim s no_auth o key ≡ claim_agent_identity s id key
unfolding claim
claim-asked s no_auth o id key auth asked = rw (asked, auth) refl

-- Where keys are checked, an agent that is admitted under an id that it asked for owns that id from
-- then on, and if the id was owned before, then by the same key.
pub register-owner :
    (s : Server) (c : Config) (a : Arrival) (p : RegisterPayload) (id : String)
    → c.no_auth ≡ false
    → p.agent_id ≡ some id
    → is_admitted (register s c a p).1 ≡ true
    → (get (register s c a p).0.world.store.agent_identities id ≡ some p.key)
      × ((k : String) → get s.world.store.agent_identities id ≡ some k → k ≡ p.key)
unfolding Admits
register-owner s c a p id auth asked h =
    let w = (check_agents s.world c a.instant p.key).0 in
    let claims = claim s.world.store c.no_auth p.agent_id p.key in
    let e = register-claimed s c a p h in
    let (granted, kept) =
      claimed-identities (record s { world = w }) c a p claims (subst Admits e h) in
    let is_claim : claims ≡ claim_agent_identity s.world.store id p.key =
      claim-asked s.world.store c.no_auth p.agent_id id p.key auth asked in
    (
      ap (λ x. get x.0.world.store.agent_identities id) e
          ∙ ap (λ m. get m id) kept
          ∙ ap (λ x. get x.0.agent_identities id) is_claim
          ∙ claim-owner s.world.store id p.key (ap (λ x. x.1) (sym is_claim) ∙ granted),
      λ k known.
          claim-known s.world.store id p.key k (ap (λ x. x.1) (sym is_claim) ∙ granted) known,
    )
