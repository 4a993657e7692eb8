-- ===== src/Store/Ownership.antt =====
-- An agent id belongs for good to the key that first claimed it.
use clawdchat.Base.{String, ◌≡◌, true, some, List, [], ◌∷◌, arith, same}
use clawdchat.Map.{get, get-insert}
use clawdchat.Store.Schema.{Store, ok}
use clawdchat.Store.Messages.{insert_message, purge_messages_by_tier}
use clawdchat.Store.Identities.{claim_agent_identity}
use clawdchat.Store.Sequence.{Call, inserts, purges, claims, outage, call, run}

pub claim-owner :
    (s : Store) (a k : String)
    → (claim_agent_identity s a k).1 ≡ ok true
    → get (claim_agent_identity s a k).0.agent_identities a ≡ some k
unfolding claim_agent_identity
claim-owner s a k h = ground (arith, get-insert s.agent_identities a k a)

owner-call :
    (s : Store) (c : Call) (a k : String)
    → get s.agent_identities a ≡ some k
    → get (call s c).agent_identities a ≡ some k
unfolding call insert_message purge_messages_by_tier claim_agent_identity
owner-call s (inserts n) a k h = ground arith
owner-call s (purges tier cutoff) a k h = ground arith
owner-call s (claims b key) a k h = ground (arith, get-insert s.agent_identities b key a)
owner-call s (outage up) a k h = h

owner-run :
    (s : Store) (cs : List Call) (a k : String)
    → get s.agent_identities a ≡ some k
    → get (run s cs).agent_identities a ≡ some k
unfolding run
owner-run s [] a k h = h
owner-run s (c ∷ cs) a k h = owner-run (call s c) cs a k (owner-call s c a k h)

claimed-by :
    (s : Store) (a k k' : String)
    → get s.agent_identities a ≡ some k
    → s.available ≡ true
    → (claim_agent_identity s a k').1 ≡ ok (same k k')
unfolding claim_agent_identity
claimed-by s a k k' h up = ground arith

-- Once a key's claim to an agent id has been granted, then after any inserts, purges, claims and
-- outages a further claim, made while the database is up, is granted to that key and to no other.
pub claim-claim :
    (s : Store) (a k k' : String) (cs : List Call)
    → (claim_agent_identity s a k).1 ≡ ok true
    → (run (claim_agent_identity s a k).0 cs).available ≡ true
    → (claim_agent_identity (run (claim_agent_identity s a k).0 cs) a k').1 ≡ ok (same k k')
claim-claim s a k k' cs h up = claimed-by _ a k k' (owner-run _ cs a k (claim-owner s a k h)) up
