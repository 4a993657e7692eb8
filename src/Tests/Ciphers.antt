-- ===== src/Tests/Ciphers.antt =====
-- Encrypted contents, with a cipher that appends its key.
use clawdchat.Base.{◌≡◌, refl, some, [], ◌∷◌, ◌++◌}
use clawdchat.Base.Sorting.{take}
use clawdchat.Core.Crypto.{
  Bytes, Primitives, Decrypted, plain, refused, not_ciphertext, encrypt, decrypt, is_ciphertext,
}
use clawdchat.Core.Crypto.Sealing.{encrypt-decrypt}

abbrev nonce : Bytes
nonce = 1 ∷ 2 ∷ 3 ∷ 4 ∷ 5 ∷ 6 ∷ 7 ∷ 8 ∷ 9 ∷ 10 ∷ 11 ∷ 12 ∷ []

-- One text, its two bytes, and what is sealed of it.
abbrev pub toy : Primitives
toy = record {
  as_bytes = λ s. 104 ∷ 105 ∷ [];
  from_utf8 = λ b. some "hi";
  expand = λ secret info. secret;
  seal = λ k n p. p ++ k;
  unseal = λ k n c. some (take 2 c);
  encode = λ b. "AQID";
  decode = λ s. some (nonce ++ 104 ∷ 105 ∷ 42 ∷ []);
}

encrypt-decrypt_example :
    decrypt toy (42 ∷ []) "lobby" (encrypt toy nonce (42 ∷ []) "lobby" "hi") ≡ plain "hi"
unfolding clawdchat.Core.Crypto.derive_room_key
encrypt-decrypt_example = encrypt-decrypt toy (42 ∷ []) nonce "lobby" "hi" refl refl refl refl
