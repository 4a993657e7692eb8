-- ===== src/Handler/Ciphertexts.antt =====
-- Clients that encrypt are let into rooms with encryption.
use clawdchat.Base.{String, ◌≡◌, Option, none, arith}
use clawdchat.Map.{Map}
use clawdchat.Core.Crypto.{Primitives, Bytes, encrypt}
use clawdchat.Core.Crypto.Sealing.{encrypt-marker}
use clawdchat.Core.Models.{Room}
use clawdchat.Store.Schema.{Store}
use clawdchat.Handler.{reject_plaintext_in_encrypted_room}

-- No room refuses as plaintext what a client has encrypted.
pub encrypt_accepted :
    (c : Primitives) (secret nonce : Bytes) (plaintext room_id : String) (req_id : Option String)
    (rooms : Map Room) (s : Store)
    → reject_plaintext_in_encrypted_room req_id
        (encrypt c nonce secret room_id plaintext)
        room_id
        rooms
        s
      ≡ none
unfolding reject_plaintext_in_encrypted_room
encrypt_accepted c secret nonce plaintext room_id req_id rooms s =
    rw (encrypt-marker c secret nonce room_id plaintext) (ground arith)
