-- ===== src/Core/Crypto.antt =====
-- crypto.rs: contents that are encrypted from end to end. The key derivation, the cipher, base64 and
-- UTF-8 are other libraries' code and are parameters; bytes are numbers.
pub mod Sealing
use Prim.Native.String.{◌++◌ as ◌⊕◌, len, slice}
use Prim.Native.Nat.{◌+◌}
use text.Mathlib.Text.{starts_with}
use text.Mathlib.TextPositions.{starts_with-append, slice-append_right, len-append}
use clawdchat.Base.{
  ℕ, ◌<◌, ◌≤◌, String, ◌≡◌, ◌≢◌, refl, ap, sym, ◌∙◌, Bool, true, false, Option, none, some, List,
  [], ◌∷◌, ◌++◌, length, length-append, ltb, arith, if◌then◌else◌,
}
use clawdchat.Base.Sorting.{take, drop}

abbrev pub Bytes : Type 0
Bytes = List ℕ

-- What the module calls. `expand` is HKDF-SHA256 without salt, `seal` and `unseal` are
-- ChaCha20-Poly1305 with a key and a nonce.
pub record Primitives : Type 0 where
  pub as_bytes : String → Bytes
  pub from_utf8 : Bytes → Option String
  pub expand : Bytes → Bytes → Bytes
  pub seal : Bytes → Bytes → Bytes → Bytes
  pub unseal : Bytes → Bytes → Bytes → Option Bytes
  pub encode : Bytes → String
  pub decode : String → Option Bytes

pub data CryptoError : Type 0 where
  not_ciphertext malformed decrypt_failed : CryptoError

pub data Decrypted : Type 0 where
  plain : String → Decrypted
  refused : CryptoError → Decrypted

abbrev pub prefix : String
prefix = "clw1:"

-- The marker of an encrypted text.
unfoldable pub is_ciphertext : String → Bool
is_ciphertext s = starts_with s prefix

abbrev pub nonce_len : ℕ
nonce_len = 12

unfoldable pub derive_room_key : Primitives → Bytes → String → Bytes
derive_room_key c secret room_id =
    c.expand secret (c.as_bytes "clawchat-e2e-v1:" ++ c.as_bytes room_id)

-- `nonce` is the fresh random one.
unfoldable pub encrypt : Primitives → Bytes → Bytes → String → String → String
encrypt c nonce secret room_id plaintext =
    prefix
    ⊕ c.encode (nonce ++ c.seal (derive_room_key c secret room_id) nonce (c.as_bytes plaintext))

unfoldable pub strip_prefix : String → Option String
strip_prefix s = if starts_with s prefix then some (slice s (len prefix) (len s)) else none

unfoldable decoded_text : Option String → Decrypted
decoded_text none = refused malformed
decoded_text (some s) = plain s

unfoldable opened : Primitives → Option Bytes → Decrypted
unfolding decoded_text
opened c none = refused decrypt_failed
opened c (some b) = decoded_text (c.from_utf8 b)

unfoldable decrypt_raw : Primitives → Bytes → String → Option Bytes → Decrypted
unfolding opened
decrypt_raw c secret room_id none = refused malformed
decrypt_raw c secret room_id (some raw) =
    if ltb (length raw) nonce_len
    then refused malformed
    else opened c
        (c.unseal (derive_room_key c secret room_id) (take nonce_len raw) (drop nonce_len raw))

unfoldable decrypt_stripped : Primitives → Bytes → String → Option String → Decrypted
unfolding decrypt_raw
decrypt_stripped c secret room_id none = refused not_ciphertext
decrypt_stripped c secret room_id (some b64) = decrypt_raw c secret room_id (c.decode b64)

unfoldable pub decrypt : Primitives → Bytes → String → String → Decrypted
unfolding decrypt_stripped
decrypt c secret room_id blob = decrypt_stripped c secret room_id (strip_prefix blob)
