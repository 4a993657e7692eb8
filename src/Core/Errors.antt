-- ===== src/Core/Errors.antt =====
-- error.rs. An error's human-readable message is left out; its code is what clients act on.
pub data ErrorCode : Type 0 where
  not_registered room_not_found not_in_room already_in_room invalid_payload : ErrorCode
  agent_id_taken internal_error room_name_taken unauthorized vote_not_found : ErrorCode
  vote_closed already_voted invalid_option not_leader election_in_progress : ErrorCode
  no_election_active rate_limit_agents rate_limit_messages rate_limit_rooms : ErrorCode
  message_too_large unsupported_protocol access_denied task_not_found : ErrorCode
  plaintext_in_encrypted_room : ErrorCode
