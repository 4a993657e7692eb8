-- ===== src/Core/Crypto/Sealing.antt =====
-- What is encrypted can be decrypted, and bears the marker that rooms with encryption ask for.
use Prim.Native.String.{◌++◌ as ◌⊕◌, len, slice}
use text.Mathlib.Text.{starts_with}
use text.Mathlib.TextPositions.{starts_with-append, slice-append_right, len-append}
use clawdchat.Base.{
  String, ◌≡◌, ◌≢◌, refl, ap, sym, ◌∙◌, true, false, Option, none, some, [], ◌∷◌, ◌++◌, length,
  length-append, ltb, arith, Bool-cases, inl, inr,
}
use clawdchat.Base.Sorting.{take, drop}
use clawdchat.Core.Crypto.{
  Bytes, Primitives, not_ciphertext, plain, refused, prefix, nonce_len, derive_room_key, encrypt,
  strip_prefix, is_ciphertext, decoded_text, opened, decrypt_raw, decrypt_stripped, decrypt,
}

strip_prefix-append : (t : String) → strip_prefix (prefix ⊕ t) ≡ some t
unfolding strip_prefix
strip_prefix-append t =
    rw (starts_with-append prefix t, len-append prefix t) (ap some (slice-append_right prefix t))

take-append : (xs ys : Bytes) → take (length xs) (xs ++ ys) ≡ xs
take-append [] ys = refl
take-append (x ∷ xs) ys = ap (◌∷◌ x) (take-append xs ys)

drop-append : (xs ys : Bytes) → drop (length xs) (xs ++ ys) ≡ ys
drop-append [] ys = refl
drop-append (x ∷ xs) ys = drop-append xs ys

first_part : (xs ys : Bytes) → length xs ≡ nonce_len → take nonce_len (xs ++ ys) ≡ xs
first_part xs ys n = ap (λ k. take k (xs ++ ys)) (sym n) ∙ take-append xs ys

rest_part : (xs ys : Bytes) → length xs ≡ nonce_len → drop nonce_len (xs ++ ys) ≡ ys
rest_part xs ys n = ap (λ k. drop k (xs ++ ys)) (sym n) ∙ drop-append xs ys

long_enough : (xs ys : Bytes) → length xs ≡ nonce_len → ltb (length (xs ++ ys)) nonce_len ≡ false
long_enough xs ys n = ground (arith, n, length-append xs ys)

raw-split :
    (c : Primitives) (secret nonce ct : Bytes) (room_id : String)
    → length nonce ≡ nonce_len
    → decrypt_raw c secret room_id (some (nonce ++ ct))
      ≡ opened c (c.unseal (derive_room_key c secret room_id) nonce ct)
unfolding decrypt_raw
raw-split c secret nonce ct room_id n =
    rw (first_part nonce ct n, rest_part nonce ct n, long_enough nonce ct n) refl

-- If UTF-8 decodes what it encodes for the text, base64 for the sealed bytes, and the cipher opens
-- what it sealed with the same key and nonce, then a text that is encrypted for a room with a secret
-- and a nonce of twelve bytes decrypts to itself for that room and that secret.
pub encrypt-decrypt :
    (c : Primitives) (secret nonce : Bytes) (room_id plaintext : String)
    → let key = derive_room_key c secret room_id in
      let sealed = c.seal key nonce (c.as_bytes plaintext) in
      c.from_utf8 (c.as_bytes plaintext) ≡ some plaintext
      → c.decode (c.encode (nonce ++ sealed)) ≡ some (nonce ++ sealed)
      → c.unseal key nonce sealed ≡ some (c.as_bytes plaintext)
      → length nonce ≡ nonce_len
      → decrypt c secret room_id (encrypt c nonce secret room_id plaintext) ≡ plain plaintext
unfolding decrypt encrypt decrypt_stripped opened decoded_text
encrypt-decrypt c secret nonce room_id plaintext utf8 base64 cipher n =
    let key = derive_room_key c secret room_id in
    let sealed = c.seal key nonce (c.as_bytes plaintext) in
    ap (decrypt_stripped c secret room_id) (strip_prefix-append (c.encode (nonce ++ sealed)))
    ∙ ap (decrypt_raw c secret room_id) base64
    ∙ raw-split c secret nonce sealed room_id n
    ∙ ap (opened c) cipher
    ∙ ap decoded_text utf8

raw_marked :
    (c : Primitives) (secret : Bytes) (room_id : String) (o : Option Bytes)
    → decrypt_raw c secret room_id o ≢ refused not_ciphertext
unfolding decrypt_raw opened decoded_text
raw_marked c secret room_id none h = ground (arith, h)
raw_marked c secret room_id (some raw) h = ground (arith, h)

-- Whatever is encrypted bears the marker of an encrypted text.
pub encrypt-marker :
    (c : Primitives) (secret nonce : Bytes) (room_id plaintext : String)
    → is_ciphertext (encrypt c nonce secret room_id plaintext) ≡ true
unfolding is_ciphertext encrypt
encrypt-marker c secret nonce room_id plaintext =
    starts_with-append prefix
      (c.encode (nonce ++ c.seal (derive_room_key c secret room_id) nonce (c.as_bytes plaintext)))

-- Decrypting refuses a blob as no ciphertext exactly when it lacks the marker.
pub decrypt-marker :
    (c : Primitives) (secret : Bytes) (room_id blob : String)
    → ((decrypt c secret room_id blob ≡ refused not_ciphertext) → is_ciphertext blob ≡ false)
      × ((is_ciphertext blob ≡ false) → decrypt c secret room_id blob ≡ refused not_ciphertext)
unfolding decrypt decrypt_stripped strip_prefix is_ciphertext
decrypt-marker c secret room_id blob = elim (Bool-cases (starts_with blob prefix)) [
  | inl e ↦ (
    λ h. ground (
      arith,
      raw_marked c secret room_id (c.decode (slice blob (len prefix) (len blob)))
          (sym (rw e refl) ∙ h),
    ),
    λ h. ground (arith, e, h),
  )
  | inr e ↦ (λ h. e, λ h. rw e refl)
]
