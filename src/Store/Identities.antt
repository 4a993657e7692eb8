-- ===== src/Store/Identities.antt =====
-- Who owns an agent id, and the sessions of agents.
use clawdchat.Base.{ℕ, String, Bool, true, not, ◌||◌, none, some, List, same, if◌then◌else◌}
use clawdchat.Map.{get, insert, update, contains_key}
use clawdchat.Store.Schema.{Store, Result, ok, err, db_error, SessionRow}

-- `INSERT OR IGNORE`, then a look at who is stored.
unfoldable pub claim_agent_identity : Store → String → String → Store × Result Bool
claim_agent_identity s agent_id owner_key =
    if s.available
    then elim (get s.agent_identities agent_id) [
      | none ↦ (
        record s { agent_identities = insert s.agent_identities agent_id owner_key },
        ok (same owner_key owner_key),
      )
      | some stored ↦ (s, ok (same stored owner_key))
    ]
    else (s, err db_error)

-- A session id that is there already is refused.
unfoldable pub record_session_start :
    Store → ℕ → String → String → String → List String → Store × Result Bool
record_session_start s now session_id agent_id agent_name capabilities =
    if not s.available || contains_key s.agent_sessions session_id then (s, err db_error) else (
      record s {
        agent_sessions = insert s.agent_sessions session_id (record {
          session_id = session_id;
          agent_id = agent_id;
          agent_name = agent_name;
          capabilities = capabilities;
          connected_at = now;
          disconnected_at = none;
        });
      },
      ok true,
    )

unfoldable pub record_session_end : Store → ℕ → String → Store
record_session_end s now session_id =
    if s.available
    then record s {
      agent_sessions =
          update s.agent_sessions session_id
            (λ (row : SessionRow). record row { disconnected_at = some now });
    }
    else s
